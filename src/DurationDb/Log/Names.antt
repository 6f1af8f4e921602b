-- ===== src/DurationDb/Log/Names.antt =====
-- Replaying a log of names that `flush` wrote.
use quokka.Prelude.{
  Text, ℕ, zero, suc, ◌≤◌, ◌≡◌, refl, ◌∙◌, List, [], ◌∷◌, ◌++◌, map, arith, length, All, flatten,
  Map, insert, nat_key, text_key,
}
use mathlib.Core.List.{append_assoc}
use quokka.Prelude.{length-append}
use quokka.Std.{le_bytes}
use quokka.Outcome.{TestIdentity}
use quokka.DurationDb.Bytes.{read_uint}
use quokka.DurationDb.Bytes.Laws.{length-le_bytes, read_uint-le_bytes}
use quokka.DurationDb.Identity.{write_test_identity}
use quokka.DurationDb.Identity.Laws.{IsRecordable, read-write_test_identity}
use quokka.DurationDb.Log.{encode_name, name_in, after_key, names_loop, replay_names_log, fold}
use quokka.DurationDb.Log.Laws.{IsU64}

abbrev pub NameFits : ℕ × TestIdentity → Type 0
NameFits (key, tid) = IsU64 key × IsRecordable tid

abbrev pub apply_name : Map ℕ TestIdentity → ℕ × TestIdentity → Map ℕ TestIdentity
apply_name names (key, tid) = insert key tid names

-- A round of the loop is taken when there is a byte.
names_loop-read :
    (fuel : ℕ) (names : Map ℕ TestIdentity) (key : ℕ) (rest : Text)
    → names_loop (suc fuel) names (le_bytes 8 key ++ rest)
      ≡ after_key (names_loop fuel) names (read_uint 8 (le_bytes 8 key ++ rest))
unfolding names_loop le_bytes
names_loop-read fuel names key rest = refl

-- One round of the loop over a whole entry.
names_loop_step :
    (fuel : ℕ) (names : Map ℕ TestIdentity) (key : ℕ) (tid : TestIdentity) (rest : Text)
    → IsU64 key
    → IsRecordable tid
    → names_loop (suc fuel) names (encode_name (key, tid) ++ rest)
      ≡ names_loop fuel (insert key tid names) rest
unfolding encode_name after_key names_loop
names_loop_step fuel names key tid rest hk ht =
    let body = write_test_identity tid in
    rw (
      append_assoc (le_bytes 8 key) body rest,
      names_loop-read fuel names key (body ++ rest),
      read_uint-le_bytes 8 key (body ++ rest) hk,
      after_key,
      read-write_test_identity tid rest ht,
      name_in,
    )

length-encode_name : (key : ℕ) (tid : TestIdentity) → 8 ≤ length (encode_name (key, tid))
unfolding encode_name
length-encode_name key tid =
    omega (arith, length-append (le_bytes 8 key) (write_test_identity tid), length-le_bytes 8 key)

names_loop-encoded :
    (fuel : ℕ) (names : Map ℕ TestIdentity) (entries : List (ℕ × TestIdentity))
    → All NameFits entries
    → length (flatten (map encode_name entries)) ≤ fuel
    → names_loop fuel names (flatten (map encode_name entries)) ≡ fold apply_name names entries
unfolding names_loop
names_loop-encoded zero names [] h enough = refl
names_loop-encoded (suc fuel) names [] h enough = refl
names_loop-encoded zero names ((key, tid) ∷ entries) h enough = absurd (
    omega (
      arith,
      length-encode_name key tid,
      length-append (encode_name (key, tid)) (flatten (map encode_name entries)),
    ))
names_loop-encoded (suc fuel) names ((key, tid) ∷ entries) h enough =
    names_loop_step fuel names key tid (flatten (map encode_name entries)) h.0.0 h.0.1
    ∙ names_loop-encoded fuel (insert key tid names) entries h.1 (
        omega (
          arith,
          length-encode_name key tid,
          length-append (encode_name (key, tid)) (flatten (map encode_name entries)),
        ))

-- A log of names replays its entries in their order; the loop's fuel, the length of the log, is
-- enough.
pub replay_names_log-encoded :
    (names : Map ℕ TestIdentity) (entries : List (ℕ × TestIdentity))
    → All NameFits entries
    → replay_names_log names (flatten (map encode_name entries)) ≡ fold apply_name names entries
unfolding replay_names_log
replay_names_log-encoded names entries h =
    names_loop-encoded (length (flatten (map encode_name entries))) names entries h (omega arith)
