-- ===== src/Indexer/Etcd.antt =====
-- `EtcdStorage` of internal/indexer/storage.go, over a client of etcd.
use carbonable_leaderboard_b.Prelude.{
  ℕ, Bool, true, false, ◌==◌, ◌≡◌, String, List, [], ◌∷◌, Option, none, some, map, ltb, eqb,
  if◌then◌else◌,
}
use carbonable_leaderboard_b.Go.Gob.{Bytes}
use carbonable_leaderboard_b.Go.Outcome.{Outcome, ok, fatal, panic}
use carbonable_leaderboard_b.Indexer.Pebble.{with_options}

pub record KeyValue : Type 0 where
  pub key : String
  pub value : Bytes

-- `clientv3.GetResponse`, the fields that the store reads
pub record GetResponse : Type 0 where
  pub count : ℕ
  pub kvs : List KeyValue

-- The calls of etcd, over the states `D` of the cluster; `none` for an error, a timeout among them.
pub record EtcdClient (D : Type 0) : Type 0 where
  pub get : D → String → Option GetResponse
  -- `Get` with `clientv3.WithPrefix()`
  pub get_with_prefix : D → String → Option GetResponse
  -- the cluster after `Put`, and whether its error is nil
  pub put : D → String → Bytes → D × Bool

-- `EtcdStorageOptions`; the timeout in seconds
pub record EtcdStorageOptions : Type 0 where
  pub advertise_urls : List String
  pub timeout : ℕ

-- `defaultEtcdOptions`, with what `ETCD_URL` is in the environment
unfoldable pub default_etcd_options : String → EtcdStorageOptions
default_etcd_options etcd_url = record {
  advertise_urls = (if etcd_url == "" then "http://localhost:2379" else etcd_url) ∷ [];
  timeout = 5;
}

-- `NewEtcdStorage`; what connects a client is a parameter, with `none` for an error
unfoldable pub new_etcd_storage :
    {D : Type 0}
    → (List String → ℕ → Option D)
    → String
    → List (EtcdStorageOptions → EtcdStorageOptions)
    → Outcome (D × ℕ)
new_etcd_storage connect etcd_url opts =
    let o = with_options (default_etcd_options etcd_url) opts in
    elim (connect o.advertise_urls o.timeout) [ none ↦ fatal | some cli ↦ ok (cli, o.timeout) ]

-- `resp.Kvs[0].Value`, which panics on no pairs
abbrev first_value : List KeyValue → Outcome Bytes
first_value [] = panic
first_value (kv ∷ kvs) = ok kv.value

abbrev value_in : Option GetResponse → Outcome Bytes
value_in none = ok []
value_in (some resp) = if eqb resp.count 0 then ok [] else first_value resp.kvs

abbrev counted : Option GetResponse → Bool
counted none = false
counted (some resp) = ltb 0 resp.count

abbrev values_in : Option GetResponse → List Bytes
values_in none = []
values_in (some resp) = map (λ (kv : KeyValue). kv.value) resp.kvs

module _ {D : Type 0} (client : EtcdClient D) where
  unfoldable pub get : D → String → Outcome Bytes
  get d id = value_in (client.get d id)

  unfoldable pub has : D → String → Bool
  has d id = counted (client.get d id)

  unfoldable pub set : D → String → Bytes → D × Bool
  set d key value = client.put d key value

  unfoldable pub scan : D → String → List Bytes
  scan d prefix = values_in (client.get_with_prefix d prefix)

-- The answer for a key: the pair that the cluster holds under it, or none.
abbrev pub answer : String → Option Bytes → GetResponse
answer key none = record { count = 0; kvs = [] }
answer key (some value) = record { count = 1; kvs = record { key = key; value = value } ∷ [] }

-- The documented behaviour of a cluster that answers in time.
pub record Answers {D : Type 0} (client : EtcdClient D) : Type 0 where
  pub contents : D → String → Option Bytes
  pub get-contents : (d : D) (k : String) → client.get d k ≡ some (answer k (contents d k))
  pub contents-put :
      (d : D) (k j : String) (v : Bytes)
      → contents (client.put d k v).0 j ≡ (if k == j then some v else contents d j)
  pub put_succeeds : (d : D) (k : String) (v : Bytes) → (client.put d k v).1 ≡ true

abbrev or_nil : Option Bytes → Bytes
or_nil none = []
or_nil (some v) = v

abbrev is_there : Option Bytes → Bool
is_there none = false
is_there (some v) = true
