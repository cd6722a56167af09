-- ===== src/Http/Message/Multipart/Ends.antt =====
-- The loop of `parse_multipart` ends.
use highload_cup.Common.{
  arith, ℕ, zero, suc, ◌+◌, ◌-◌, ◌≤◌, ◌<◌, ◌≡◌, refl, ltb, ltb→lt, Bool-cases, Bytes, length, inl,
  inr,
}
use highload_cup.Http.Message.{Message}
use highload_cup.Http.Message.Multipart.{
  Place, header, name, filename, content_type, part_body, Scan, step_header, step_name,
  step_filename, step_content_type, step_body, step_in, start, scan, scan_fuel, parse_multipart,
}

-- Twice what is left of the buffer, and one more in a content type.
abbrev ticks : Place → ℕ
ticks content_type = 1
ticks _ = 0

abbrev measure : Bytes → Scan → ℕ
measure raw v = (length raw - v.current) + (length raw - v.current) + ticks v.state

-- A round behind which the measure is below a bound.
Moves : Bytes → ℕ → Scan → Type 0
Moves raw bound v = measure raw v < bound

-- Every round takes a part of the measure.
step_in-Moves :
    (state : Place) (boundary raw : Bytes) (v : Scan)
    → v.state ≡ state
    → v.current < length raw
    → Moves raw (measure raw v) (step_in state boundary raw v)
unfolding Moves step_header step_name step_filename step_content_type step_body start
step_in-Moves header boundary raw v e h = ground arith
step_in-Moves name boundary raw v e h = ground arith
step_in-Moves filename boundary raw v e h = ground arith
step_in-Moves content_type boundary raw v e h = ground arith
step_in-Moves part_body boundary raw v e h = ground arith

-- With as many rounds as the measure, the loop has read the whole buffer.
scan_ends :
    (fuel : ℕ) (boundary raw : Bytes) (v : Scan)
    → measure raw v ≤ fuel
    → length raw ≤ (scan fuel boundary raw v).current
unfolding scan Moves
scan_ends zero boundary raw v h = omega arith
scan_ends (suc fuel) boundary raw v h = elim (Bool-cases (ltb v.current (length raw))) [
  | inl lt ↦ rw lt (
      scan_ends fuel boundary raw (step_in v.state boundary raw v) (
        omega
          (arith, step_in-Moves v.state boundary raw v refl (ltb→lt v.current (length raw) lt))))
  | inr ge ↦ rw ge (ground arith)
]

-- Whatever the buffer, the boundary, and the place from which it is read, `parse_multipart` ends:
-- within the fuel given it has read the buffer to its end.
pub parse_multipart_ends :
    (boundary : Bytes) (m : Message) → length m.raw ≤ (parse_multipart boundary m).current
unfolding parse_multipart start
parse_multipart_ends boundary m =
    scan_ends (scan_fuel m.raw) boundary m.raw (start (m.current + (length boundary + 2)) m.posts)
      (omega arith)
