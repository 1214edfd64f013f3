-- ===== src/Frames/Ending.antt =====
-- The loop of Next (frames/frames.go) without fuel, as a relation between a stream and a result.
use contextmatrix_backendkit.Prelude.{
  ℕ, zero, suc, ◌<◌, ◌≡◌, refl, ◌∙◌, subst, List, none, some, arith, Bytes, length, inl, inr,
  Option-cases, ◌↔◌,
}
use contextmatrix_backendkit.Frames.{
  Codec, Frame, token, line_too_long, stream_end, scan, Next, frame, read_failed, eof, parse_line,
  handle_line, next_loop, next,
}
use contextmatrix_backendkit.Frames.Lines.{is_token, is_long, is_end, scanned, length-scan}

module _ (codec : Codec) (accepted : List Bytes) where
  -- A round that skips its line is followed by another on the rest.
  pub data Reads : Bytes → Next → Type 0 where
    ends : (s : Bytes) → scan s ≡ stream_end → Reads s eof
    fails : (s : Bytes) → scan s ≡ line_too_long → Reads s read_failed
    yields :
        (s line left : Bytes) (f : Frame)
        → scan s ≡ token line left
        → parse_line codec accepted line ≡ some f
        → Reads s (frame f left)
    skips :
        (s line left : Bytes) (r : Next)
        → scan s ≡ token line left
        → parse_line codec accepted line ≡ none
        → Reads left r
        → Reads s r

  handle-skipped :
      (line left : Bytes) (r : Next)
      → parse_line codec accepted line ≡ none
      → handle_line codec accepted line left r ≡ r
  unfolding handle_line
  handle-skipped line left r h = ground (arith, h)

  handle-yielded :
      (line left : Bytes) (f : Frame) (r : Next)
      → parse_line codec accepted line ≡ some f
      → handle_line codec accepted line left r ≡ frame f left
  unfolding handle_line
  handle-yielded line left f r h = ground (arith, h)

  loop-token :
      (fuel : ℕ) (s line left : Bytes)
      → scan s ≡ token line left
      → next_loop codec accepted (suc fuel) s
        ≡ handle_line codec accepted line left (next_loop codec accepted fuel left)
  unfolding next_loop
  loop-token fuel s line left h = ground (arith, h)

  loop-end :
      (fuel : ℕ) (s : Bytes) → scan s ≡ stream_end → next_loop codec accepted (suc fuel) s ≡ eof
  unfolding next_loop
  loop-end fuel s h = ground (arith, h)

  loop-long :
      (fuel : ℕ) (s : Bytes)
      → scan s ≡ line_too_long
      → next_loop codec accepted (suc fuel) s ≡ read_failed
  unfolding next_loop
  loop-long fuel s h = ground (arith, h)

  next_loop-Reads :
      (fuel : ℕ) (s : Bytes) → length s < fuel → Reads s (next_loop codec accepted fuel s)
  next_loop-Reads zero s h = absurd (omega arith)
  next_loop-Reads (suc fuel) s h = elim (scanned s (scan s) refl) [
    | is_long e ↦ rw (loop-long fuel s e) (fails s e)
    | is_end e ↦ rw (loop-end fuel s e) (ends s e)
    | is_token line left e ↦
        let rest = next_loop-Reads fuel left (omega (arith, h, length-scan s line left e)) in
        elim (Option-cases (parse_line codec accepted line)) [
          | inl skipped ↦
              rw
                (
                  loop-token fuel s line left e,
                  handle-skipped line left (next_loop codec accepted fuel left) skipped,
                )
                (skips s line left (next_loop codec accepted fuel left) e skipped rest)
          | inr (f, found) ↦
              rw
                (
                  loop-token fuel s line left e,
                  handle-yielded line left f (next_loop codec accepted fuel left) found,
                )
                (yields s line left f e found)
        ]
  ]

  Reads-next_loop :
      (fuel : ℕ) (s : Bytes) (r : Next)
      → length s < fuel
      → Reads s r
      → next_loop codec accepted fuel s ≡ r
  Reads-next_loop zero s r h reads = absurd (omega arith)
  Reads-next_loop (suc fuel) _ _ h (ends s e) = loop-end fuel s e
  Reads-next_loop (suc fuel) _ _ h (fails s e) = loop-long fuel s e
  Reads-next_loop (suc fuel) _ _ h (yields s line left f e found) =
      loop-token fuel s line left e
      ∙ handle-yielded line left f (next_loop codec accepted fuel left) found
  Reads-next_loop (suc fuel) _ _ h (skips s line left r e skipped reads) =
      loop-token fuel s line left e
      ∙ handle-skipped line left (next_loop codec accepted fuel left) skipped
      ∙ Reads-next_loop fuel left r (omega (arith, h, length-scan s line left e)) reads

  -- Next returns on every stream, and its result is exactly that of the loop without fuel: the
  -- frame of the first line that holds one of an accepted type, with the bytes behind that line; an
  -- error at the first line that is too long, if it comes before; the end of the stream, if neither
  -- comes.
  pub next-Reads : (s : Bytes) (r : Next) → (next codec accepted s ≡ r) ↔ Reads s r
  unfolding next
  next-Reads s r = (
    λ e. subst (Reads s) e (next_loop-Reads (suc (length s)) s (omega arith)),
    λ reads. Reads-next_loop (suc (length s)) s r (omega arith) reads,
  )
