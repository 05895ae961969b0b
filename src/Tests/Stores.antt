-- ===== src/Tests/Stores.antt =====
-- A store that keeps everything, and the encodings of what is written to it.
use carbonable_leaderboard_b.Prelude.{
  ℕ, refl, ap, Bool, true, false, String, [], ◌∷◌, Option, none, some, arith, ◌==◌, if◌then◌else◌,
}
use carbonable_leaderboard_b.Go.Format.{decimal}
use carbonable_leaderboard_b.Go.Gob.{Bytes}
use carbonable_leaderboard_b.Starknet.Block.{GetBlockResponse}
use carbonable_leaderboard_b.Indexer.Storage.{Storage, IsReliable}
use carbonable_leaderboard_b.Indexer.ContractIndex.{
  ContractIndex, IndexCodec, RoundTripsInto, overlay,
}
use carbonable_leaderboard_b.Indexer.EventIndexer.{Codecs}
use carbonable_leaderboard_b.Indexer.PgStorage.{
  KvStore, First, record_found, record_not_found, Table, Answers,
}
use carbonable_leaderboard_b.Synchronizer.{Formats}
use carbonable_leaderboard_b.Synchronizer.Latest.{KeepsNumbers}
use carbonable_leaderboard_b.Tests.Decimals.{parse_uint, parse_uint-decimal}

abbrev pub Contents : Type 0
Contents = String → Option Bytes

abbrev pub nothing : Contents
nothing k = none

abbrev or_no_bytes : Option Bytes → Bytes
or_no_bytes none = []
or_no_bytes (some v) = v

abbrev is_there : Option Bytes → Bool
is_there none = false
is_there (some v) = true

abbrev pub with_key : Contents → String → Bytes → Contents
with_key m k v j = if k == j then some v else m j

abbrev pub memory : Storage Contents
memory = record {
  get = λ m k. or_no_bytes (m k);
  has = λ m k. is_there (m k);
  set = λ m k v. (with_key m k v, true);
  scan = λ m prefix. [];
}

pub memory-IsReliable : IsReliable memory
memory-IsReliable = record {
  get-set = λ m k j v. ground arith;
  has-set = λ m k j v. ground arith;
  set_succeeds = λ m k v. refl;
}

-- A table of rows by their ids.
abbrev first_row : Option KvStore → First
first_row none = record_not_found
first_row (some row) = record_found row

abbrev pub rows : Table (String → Option KvStore)
rows = record {
  first = λ d k. first_row (d k);
  save = λ d row. (λ k. if row.id == k then some row else d k, true);
  find_like = λ d prefix. [];
}

pub rows-Answers : Answers rows
rows-Answers = record { first-save = λ d row k. ground arith; save_succeeds = λ d row. refl }

abbrev read_index : ContractIndex → Bytes → Option ContractIndex
read_index target [] = none
read_index target (latest ∷ blocks) =
    some (overlay target (record { blocks = blocks; latest_block = latest }))

-- The latest block, and the blocks behind it.
abbrev pub index_codec : IndexCodec
index_codec = record { encode = λ c. c.latest_block ∷ c.blocks; decode_into = read_index }

pub index_codec-RoundTripsInto : RoundTripsInto index_codec
index_codec-RoundTripsInto = record { decode-encode = λ target c. refl }

abbrev read_number : Bytes → Option String
read_number [] = none
read_number (n ∷ rest) = some (decimal n)

abbrev number_of : Option ℕ → ℕ
number_of none = 0
number_of (some n) = n

-- Texts of numbers only, and the one block that there is.
abbrev pub formats : GetBlockResponse → Formats
formats b = record {
  block = record { encode = λ b'. 1 ∷ []; decode = λ bytes. some b };
  text = record { encode = λ s. number_of (parse_uint s) ∷ []; decode = read_number };
  parse_uint = parse_uint;
}

pub formats-KeepsNumbers : (b : GetBlockResponse) → KeepsNumbers (formats b)
formats-KeepsNumbers b = record {
  decode-encode = λ n h. ap (λ o. some (decimal (number_of o))) (parse_uint-decimal n h);
  parse-decimal = parse_uint-decimal;
}

abbrev pub codecs : GetBlockResponse → Codecs
codecs b = record {
  transaction = record { encode = λ tx. 2 ∷ []; decode = λ bytes. none };
  event = record { encode = λ e. 3 ∷ []; decode = λ bytes. none };
  block = record { encode = λ b'. 1 ∷ []; decode = λ bytes. some b };
  index = index_codec;
}
