-- ===== src/Http/Message/Parse/FirstLine.antt =====
-- The first line of a reply, read by `parse`.
use highload_cup.Common.{
  arith, ℕ, ◌+◌, ◌-◌, ◌<◌, ◌≡◌, ◌∙◌, ap, refl, sym, true, false, List, [], ◌∷◌, ◌++◌, ltb, lt→ltb,
  Bytes, codes, length, length-append, slice-append, append_assoc, All, ok,
}
use highload_cup.Http.Status.{Status, unknown, is_unknown, status_from_int, status_to_str}
use highload_cup.Util.Numbers.{format_size}
use highload_cup.Http.Status.Words.{avoids, Words}
use highload_cup.Http.Version.{Version, version_of}
use highload_cup.Http.Message.{Message, in_version, in_status, in_header}
use highload_cup.Http.Message.Raw.{line_end}
use highload_cup.Http.Message.Parse.{going, token, step_in, step_status, step_version, parse_loop}
use highload_cup.Http.Message.Parse.Steps.{Passes, step_going, skip}

module _ (split : Bytes → Bytes → List Bytes) (unset : Version) where
  -- Bytes of the version, of the number of the status, and of the reason.
  version-Passes :
      (w : Bytes) (m : Message)
      → m.stage ≡ in_version
      → avoids b' ' b'\n' w ≡ true
      → All (Passes split unset false m) w
  unfolding step_version
  version-Passes [] m e h = tt
  version-Passes (b ∷ w) m e h =
      ((λ count. rw e (ground arith)), version-Passes w m e (ground arith))

  word-Passes :
      (w : Bytes) (m : Message)
      → m.stage ≡ in_status
      → avoids b' ' b'\n' w ≡ true
      → All (Passes split unset false m) w
  unfolding step_status
  word-Passes [] m e h = tt
  word-Passes (b ∷ w) m e h = ((λ count. rw e (ground arith)), word-Passes w m e (ground arith))

  reason-Passes :
      (w : Bytes) (m : Message)
      → m.stage ≡ in_status
      → is_unknown m.status ≡ false
      → avoids b'\n' b'\r' w ≡ true
      → All (Passes split unset false m) w
  unfolding step_status
  reason-Passes [] m e k h = tt
  reason-Passes (b ∷ w) m e k h =
      ((λ count. rw e (ground arith)), reason-Passes w m e k (ground arith))

  -- The space behind the version, and the one behind the number of the status.
  version_read :
      (count : ℕ) (text : Bytes) (v : Version) (m : Message)
      → m.stage ≡ in_version
      → m.current < count
      → token m count ≡ text
      → version_of split unset text ≡ ok v
      → step_in split unset false m.stage b' ' count m
        ≡ going (record m { ver = v; stage = in_status; current = count + 1 })
  unfolding step_version
  version_read count text v m e h t reads =
      let behind : ltb count m.current ≡ false = ground arith in
      rw (e, behind, lt→ltb 0 (count - m.current) (omega arith), t, reads) refl

  status_read :
      (count n : ℕ) (text : Bytes) (m : Message)
      → m.stage ≡ in_status
      → m.status ≡ unknown
      → m.current < count
      → token m count ≡ text
      → format_size text ≡ ok n
      → step_in split unset false m.stage b' ' count m
        ≡ going (record m { status = status_from_int n })
  unfolding step_status
  status_read count n text m e f h t reads =
      rw (e, f, lt→ltb 0 (count - m.current) (omega arith), t, reads) refl

  -- The line end.
  return_read :
      (count : ℕ) (m : Message)
      → m.stage ≡ in_status
      → step_in split unset false m.stage b'\r' count m ≡ going m
  unfolding step_status
  return_read count m e = rw e refl

  feed_read :
      (count : ℕ) (m : Message)
      → m.stage ≡ in_status
      → step_in split unset false m.stage b'\n' count m
        ≡ going (record m { stage = in_header; current = count + 1 })
  unfolding step_status
  feed_read count m e = rw e refl

  -- The message behind the first line of so many bytes.
  abbrev pub behind_first : Message → Version → Status → ℕ → Message
  behind_first m v status n = record m { ver = v; status = status; stage = in_header; current = n }

  pub first_read :
      (text rest : Bytes) (v : Version) (status : Status) (m : Message) (w : Words status)
      → m.raw ≡ text ++ (codes " " ++ (w.word ++ (codes " " ++ (w.reason ++ (line_end ++ rest)))))
      → m.stage ≡ in_version
      → m.status ≡ unknown
      → m.current ≡ 0
      → 0 < length text
      → avoids b' ' b'\n' text ≡ true
      → version_of split unset text ≡ ok v
      → is_unknown status ≡ false
      → parse_loop split unset false m.raw 0 m
        ≡ parse_loop split unset false rest
            (length text + length (status_to_str status) + 3)
            (behind_first m v status (length text + length (status_to_str status) + 3))
  first_read text rest v status m w raw e f at full plain reads known =
      let back = w.reason ++ (line_end ++ rest) in
      let n = length text in
      let m1 : Message = record m { ver = v; stage = in_status; current = n + 1 } in
      let m2 : Message = record m1 { status = status } in
      let last = n + 1 + length w.word + 1 + length w.reason in
      let size : last + 2 ≡ n + length (status_to_str status) + 3 =
        rw w.text (omega (arith, length-append w.word (codes " " ++ w.reason))) in
      ap (λ s. parse_loop split unset false s 0 m) raw
      ∙ skip split unset false text _ 0 m (version-Passes text m e plain)
      ∙ ap (λ i. parse_loop split unset false (codes " " ++ (w.word ++ (codes " " ++ back))) i m)
          (omega arith)
      ∙ step_going split unset false _ b' ' n m m1 (
          version_read n text v m e (omega arith)
            (rw (raw, at) (slice-append [] text _ 0 (n - 0) refl (omega arith))) reads)
      ∙ skip split unset false w.word _ (n + 1) m1 (word-Passes w.word m1 refl w.word_plain)
      ∙ step_going split unset false back b' ' (n + 1 + length w.word) m1 m2 (
          status_read (n + 1 + length w.word) w.number w.word m1 refl f (omega (arith, w.three))
            (rw (raw ∙ sym (append_assoc text (codes " ") (w.word ++ (codes " " ++ back)))) (
              slice-append (text ++ codes " ") w.word (codes " " ++ back) (n + 1)
                (n + 1 + length w.word - (n + 1)) (omega (arith, length-append text (codes " ")))
                (omega arith)))
            w.reads
          ∙ ap (λ s. going (record m1 { status = s })) w.names)
      ∙ skip split unset false w.reason _ (n + 1 + length w.word + 1) m2
          (reason-Passes w.reason m2 refl known w.reason_plain)
      ∙ step_going split unset false _ b'\r' last m2 m2 (return_read last m2 refl)
      ∙ step_going split unset false rest b'\n' (last + 1) m2 (behind_first m v status (last + 2))
          (feed_read (last + 1) m2 refl ∙ ap (λ i. going (behind_first m v status i)) (omega arith))
      ∙ ap (λ i. parse_loop split unset false rest i (behind_first m v status (last + 2)))
          (omega arith)
      ∙ ap (λ i. parse_loop split unset false rest i (behind_first m v status i)) size
