-- ===== src/Http/Params.antt =====
-- `sp_http_proto::parse_urlencoded` (include/sp_http_proto.cpp), over any callback, and the loop of
-- `http_proto::to_raw` (include/http_proto.cpp) that writes a query string.
mod Steps
pub mod Local
pub mod Written
mod FieldAt
pub mod RoundTrip
mod Tests
use highload_cup.Common.{
  ℕ, ◌+◌, ◌-◌, Bool, true, false, not, ◌&&◌, List, [], ◌∷◌, ◌++◌, ◌==◌, if◌then◌else◌, Bytes, slice,
  length, empty_name, Result, ok, throw, ◌>>=◌,
}
use highload_cup.Http.Quote.{unquote, quote}

-- The variables of the loop, and what the callback has built. `name_size` and `value_size` are
-- read only where they have just been set.
pub record Scan (S : Type 0) : Type 0 where
  pub name_start : ℕ
  pub name_size : ℕ
  pub value_start : ℕ
  pub sink : S

-- `name->at(0)` throws on an empty name.
pub named : Bytes → Bytes → Result (Bytes × Bytes)
named [] value = throw empty_name
named (c ∷ cs) value = ok (c ∷ cs, value)

-- The name and the value that are handed over.
pub field_at : Bytes → Bool → ℕ → ℕ → ℕ → ℕ → Result (Bytes × Bytes)
unfolding named
field_at raw true name_start name_size value_start value_size =
    named (unquote (slice raw name_start name_size)) (unquote (slice raw value_start value_size))
field_at raw false name_start name_size value_start value_size =
    ok (slice raw name_start name_size, slice raw value_start value_size)

module _ {S : Type 0} (raw : Bytes) (off_end : ℕ) (func : S → Bytes → Bytes → S) (separator : ℕ)
    (unquote_flag : Bool) where
  -- The end of the loop's body, behind the computation of `value_size`.
  pub hand_over : ℕ → Scan S → ℕ → Result (Scan S)
  unfolding field_at
  hand_over count v value_size =
      field_at raw unquote_flag v.name_start v.name_size v.value_start value_size >>= λ field.
      ok (record v { name_start = count + 1; value_start = 0; sink = func v.sink field.0 field.1 })

  pub scan_step : ℕ → Scan S → ℕ → Result (Scan S)
  unfolding hand_over
  scan_step b v count =
      if b == b' '
      then ok (record v { name_start = count + 1 })
      else if b == b'=' && v.value_start == 0
      then ok (record v { name_size = count - v.name_start; value_start = count + 1 })
      else if not (v.value_start == 0)
      then (if b == separator
          then hand_over count v (count - v.value_start)
          else if count + 1 == off_end
          then hand_over count v (count - v.value_start + 1)
          else ok v)
      else ok v

  pub scan : Bytes → ℕ → Scan S → Result (Scan S)
  scan [] count v = ok v
  scan (b ∷ todo) count v = scan_step b v count >>= λ w. scan todo (count + 1) w

-- The loop over `raw[off_begin .. off_end)`; `off_end` is at most the length of `raw`.
unfoldable pub parse_urlencoded :
    {S : Type 0} → Bytes → ℕ → ℕ → (S → Bytes → Bytes → S) → ℕ → Bool → S → Result S
unfolding scan scan_step
parse_urlencoded raw off_begin off_end func separator unquote_flag sink =
    scan raw off_end func separator unquote_flag (slice raw off_begin (off_end - off_begin))
      off_begin (record { name_start = off_begin; name_size = 0; value_start = 0; sink = sink })
    >>= λ v. ok v.sink

-- `for (auto& pr : m_get)` in `to_raw`, in the order in which the map gives the pairs.
unfoldable pub query_loop : Bool → List (Bytes × Bytes) → Bytes → Bytes
query_loop flag [] res = res
query_loop flag ((first, second) ∷ rest) res =
    query_loop true rest
      ((if flag then res ++ b'&' ∷ [] else res) ++ (quote first ++ b'=' ∷ quote second))

unfoldable pub query_string : List (Bytes × Bytes) → Bytes
unfolding query_loop
query_string pairs = query_loop false pairs []
