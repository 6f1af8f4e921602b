-- ===== src/DurationDb/Log/Laws.antt =====
-- Replaying a log that `flush` wrote.
use quokka.Prelude.{
  Text, Bool, true, false, not, Option, some, ℕ, zero, suc, ◌^◌, ◌≤◌, ◌<◌, leb, ◌==◌, ◌≡◌, refl,
  sym, ap, ◌∙◌, List, [], ◌∷◌, ◌++◌, map, arith, length, take, drop, All, flatten, nat_key,
  text_key,
}
use mathlib.Core.List.{append_assoc, append-nil}
use quokka.Prelude.{length-append}
use quokka.Std.{le_bytes}
use quokka.Outcome.{FailureClass}
use quokka.DurationDb.{Environment, local, remote}
use quokka.DurationDb.Bytes.{from_le_bytes}
use quokka.DurationDb.Bytes.Laws.{take-append, drop-append, length-le_bytes, from_le_bytes-le_bytes}
use quokka.DurationDb.Identity.{class_byte}
use quokka.DurationDb.Identity.Laws.{from_u8-class_byte}
use quokka.DurationDb.Log.{
  PerfSample, FlakeEvent, PerfTables, FlakeTables, to_index, from_index, uint_at, chunks,
  add_sample, add_event, encode_sample, encode_event, bool_byte, sample_in, event_in, replay_sample,
  replay_event, fold, replay_perf_log, replay_flake_log,
}

abbrev pub IsU64 : ℕ → Type 0
IsU64 n = n < 256 ^ 8

abbrev pub SampleFits : PerfSample → Type 0
SampleFits (env, key, ts, dur) = IsU64 key × IsU64 ts × IsU64 dur

abbrev pub EventFits : FlakeEvent → Type 0
EventFits (env, key, failed, class, ts) = IsU64 key × IsU64 ts

-- The number that stands behind the first `i` bytes.
uint_at-append :
    (before field after : Text) (i n : ℕ)
    → length before ≡ i
    → length field ≡ n
    → uint_at i n (before ++ (field ++ after)) ≡ from_le_bytes field
unfolding uint_at
uint_at-append before field after i n e f =
    rw (sym e, sym f, drop-append before (field ++ after), take-append field after)

uint_at-le_bytes :
    (before after : Text) (i n value : ℕ)
    → length before ≡ i
    → value < 256 ^ n
    → uint_at i n (before ++ (le_bytes n value ++ after)) ≡ value
uint_at-le_bytes before after i n value e fits =
    uint_at-append before (le_bytes n value) after i n e (length-le_bytes n value)
    ∙ from_le_bytes-le_bytes n value fits

uint_at-byte :
    (before after : Text) (i b : ℕ) → length before ≡ i → uint_at i 1 (before ++ (b ∷ after)) ≡ b
unfolding from_le_bytes
uint_at-byte before after i b e = uint_at-append before (b ∷ []) after i 1 e refl ∙ omega arith

module _ (size : ℕ) where
  abbrev HasSize : Text → Type 0
  HasSize record_ = length record_ ≡ size

  -- A log of whole records, with a record at its end that was cut off.
  chunks-flatten :
      (records : List Text) (tail : Text) (fuel : ℕ)
      → 1 ≤ size
      → All HasSize records
      → length tail < size
      → length (flatten records ++ tail) ≤ fuel
      → chunks size fuel (flatten records ++ tail) ≡ records
  unfolding chunks
  chunks-flatten [] tail zero one h cut enough = refl
  chunks-flatten [] tail (suc fuel) one h cut enough =
      let short : leb size (length tail) ≡ false = ground arith in rw short
  chunks-flatten (r ∷ records) tail zero one h cut enough = absurd (
      omega
        (arith, h.0, length-append r (flatten records), length-append (r ++ flatten records) tail))
  chunks-flatten (r ∷ records) tail (suc fuel) one h cut enough =
      let rest = flatten records ++ tail in
      let whole = append_assoc r (flatten records) tail in
      let long = length-append r rest in
      let left : length (r ++ rest) ≤ suc fuel = rw whole at enough in
      let full : leb size (length (r ++ rest)) ≡ true = ground (arith, h.0, long) in
      let there = chunks-flatten records tail fuel one h.1 cut (omega (arith, long, h.0)) in
      let front : take size (r ++ rest) ≡ r = rw (sym h.0) (take-append r rest) in
      let back : drop size (r ++ rest) ≡ rest = rw (sym h.0) (drop-append r rest) in
      rw (whole, full, front, back, there)

from-to_index : (env : Environment) → from_index (to_index env) ≡ some env
unfolding from_index to_index
from-to_index local = refl
from-to_index remote = refl

replay-encode_sample :
    (tables : PerfTables) (env : Environment) (key ts dur : ℕ)
    → IsU64 key
    → IsU64 ts
    → IsU64 dur
    → replay_sample tables (encode_sample (env, key, ts, dur)) ≡ add_sample tables env key ts dur
unfolding replay_sample encode_sample
replay-encode_sample tables env key ts dur hk ht hd =
    let e = to_index env ∷ [] in
    let k = le_bytes 8 key in
    let t = le_bytes 8 ts in
    let d = le_bytes 8 dur in
    let long_k = length-le_bytes 8 key in
    let long_t = length-le_bytes 8 ts in
    let env_lem : uint_at 0 1 (e ++ (k ++ (t ++ d))) ≡ to_index env =
      uint_at-byte [] (k ++ (t ++ d)) 0 (to_index env) refl in
    let key_lem : uint_at 1 8 (e ++ (k ++ (t ++ d))) ≡ key =
      uint_at-le_bytes e (t ++ d) 1 8 key refl hk in
    let ts_lem : uint_at 9 8 ((e ++ k) ++ (t ++ d)) ≡ ts =
      uint_at-le_bytes (e ++ k) d 9 8 ts (omega (arith, length-append e k, long_k)) ht in
    let dur_lem : uint_at 17 8 (((e ++ k) ++ t) ++ (d ++ [])) ≡ dur =
      uint_at-le_bytes ((e ++ k) ++ t) [] 17 8 dur
        (omega (arith, length-append (e ++ k) t, length-append e k, long_k, long_t)) hd in
    let dur_lem' : uint_at 17 8 (e ++ (k ++ (t ++ d))) ≡ dur =
      rw (append-nil d, append_assoc (e ++ k) t d) at dur_lem in
    rw (env_lem, from-to_index env, sample_in, key_lem, ts_lem, dur_lem')

bool_byte-not_zero : (b : Bool) → not (bool_byte b == 0) ≡ b
unfolding bool_byte
bool_byte-not_zero true = refl
bool_byte-not_zero false = refl

replay-encode_event :
    (tables : FlakeTables) (env : Environment) (key : ℕ) (failed : Bool)
    (class : Option FailureClass) (ts : ℕ)
    → IsU64 key
    → IsU64 ts
    → replay_event tables (encode_event (env, key, failed, class, ts))
      ≡ add_event tables env key failed class ts
unfolding replay_event encode_event
replay-encode_event tables env key failed class ts hk ht =
    let e = to_index env ∷ [] in
    let k = le_bytes 8 key in
    let f = bool_byte failed ∷ [] in
    let c = class_byte class ∷ [] in
    let t = le_bytes 8 ts in
    let long_k = length-le_bytes 8 key in
    let whole = e ++ (k ++ (f ++ (c ++ t))) in
    let env_lem : uint_at 0 1 whole ≡ to_index env =
      uint_at-byte [] (k ++ (f ++ (c ++ t))) 0 (to_index env) refl in
    let key_lem : uint_at 1 8 whole ≡ key = uint_at-le_bytes e (f ++ (c ++ t)) 1 8 key refl hk in
    let failed_lem : uint_at 9 1 whole ≡ bool_byte failed =
      uint_at-byte (e ++ k) (c ++ t) 9 (bool_byte failed)
        (omega (arith, length-append e k, long_k)) in
    let class_lem : uint_at 10 1 ((e ++ k) ++ (f ++ (c ++ t))) ≡ class_byte class =
      rw (append_assoc (e ++ k) f (c ++ t)) at (
        uint_at-byte ((e ++ k) ++ f) t 10 (class_byte class)
          (omega (arith, length-append (e ++ k) f, length-append e k, long_k))) in
    let before = ((e ++ k) ++ f) ++ c in
    let shape : before ++ (t ++ []) ≡ (e ++ k) ++ (f ++ (c ++ t)) =
      simp (append_assoc, append-nil) in
    let ts_lem : uint_at 11 8 whole ≡ ts =
      ap (uint_at 11 8) (sym shape)
      ∙ uint_at-le_bytes before [] 11 8 ts
          (omega (
            arith,
            length-append ((e ++ k) ++ f) c,
            length-append (e ++ k) f,
            length-append e k,
            long_k,
          ))
          ht in
    rw (
      env_lem,
      from-to_index env,
      event_in,
      key_lem,
      failed_lem,
      class_lem,
      ts_lem,
      bool_byte-not_zero failed,
      from_u8-class_byte class,
    )

length-encode_sample : (r : PerfSample) → length (encode_sample r) ≡ 25
unfolding encode_sample
length-encode_sample (env, key, ts, dur) = omega (
  arith,
  length-append (le_bytes 8 key) (le_bytes 8 ts ++ le_bytes 8 dur),
  length-append (le_bytes 8 ts) (le_bytes 8 dur),
  length-le_bytes 8 key,
  length-le_bytes 8 ts,
  length-le_bytes 8 dur,
)

length-encode_event : (r : FlakeEvent) → length (encode_event r) ≡ 19
unfolding encode_event
length-encode_event (env, key, failed, class, ts) = omega (
  arith,
  length-append (le_bytes 8 key)
      ((bool_byte failed ∷ []) ++ ((class_byte class ∷ []) ++ le_bytes 8 ts)),
  length-le_bytes 8 key,
  length-le_bytes 8 ts,
)

module _ {A : Type 0} (encode : A → Text) (size : ℕ)
    (sized : (a : A) → length (encode a) ≡ size) where
  All-sized : (records : List A) → All (HasSize size) (map encode records)
  All-sized [] = tt
  All-sized (a ∷ records) = (sized a, All-sized records)

  chunks-encoded :
      (records : List A) (tail : Text)
      → 1 ≤ size
      → length tail < size
      → let buf = flatten (map encode records) ++ tail in
        chunks size (length buf) buf ≡ map encode records
  chunks-encoded records tail one cut =
      chunks-flatten size (map encode records) tail _ one (All-sized records) cut (omega arith)

abbrev pub apply_sample : PerfTables → PerfSample → PerfTables
unfolding add_sample
apply_sample tables (env, key, ts, dur) = add_sample tables env key ts dur

abbrev pub apply_event : FlakeTables → FlakeEvent → FlakeTables
unfolding add_event
apply_event tables (env, key, failed, class, ts) = add_event tables env key failed class ts

fold-encode_sample :
    (tables : PerfTables) (records : List PerfSample)
    → All SampleFits records
    → fold replay_sample tables (map encode_sample records) ≡ fold apply_sample tables records
unfolding apply_sample
fold-encode_sample tables [] h = refl
fold-encode_sample tables ((env, key, ts, dur) ∷ records) h =
    ap (λ t. fold replay_sample t (map encode_sample records))
      (replay-encode_sample tables env key ts dur h.0.0 h.0.1 h.0.2)
    ∙ fold-encode_sample (add_sample tables env key ts dur) records h.1

fold-encode_event :
    (tables : FlakeTables) (records : List FlakeEvent)
    → All EventFits records
    → fold replay_event tables (map encode_event records) ≡ fold apply_event tables records
unfolding apply_event
fold-encode_event tables [] h = refl
fold-encode_event tables ((env, key, failed, class, ts) ∷ records) h =
    ap (λ t. fold replay_event t (map encode_event records))
      (replay-encode_event tables env key failed class ts h.0.0 h.0.1)
    ∙ fold-encode_event (add_event tables env key failed class ts) records h.1

-- A perf log of whole records replays those records in their order; what a write that was cut off
-- left at its end is not read.
pub replay_perf_log-encoded :
    (tables : PerfTables) (records : List PerfSample) (tail : Text)
    → All SampleFits records
    → length tail < 25
    → replay_perf_log tables (flatten (map encode_sample records) ++ tail)
      ≡ fold apply_sample tables records
unfolding replay_perf_log
replay_perf_log-encoded tables records tail h cut =
    rw (chunks-encoded encode_sample 25 length-encode_sample records tail (omega arith) cut)
      (fold-encode_sample tables records h)

-- A flake log of whole records replays those records in their order; what a write that was cut off
-- left at its end is not read.
pub replay_flake_log-encoded :
    (tables : FlakeTables) (records : List FlakeEvent) (tail : Text)
    → All EventFits records
    → length tail < 19
    → replay_flake_log tables (flatten (map encode_event records) ++ tail)
      ≡ fold apply_event tables records
unfolding replay_flake_log
replay_flake_log-encoded tables records tail h cut =
    rw (chunks-encoded encode_event 19 length-encode_event records tail (omega arith) cut)
      (fold-encode_event tables records h)
