-- ===== src/Sockets/Written.antt =====
-- WriteN: what the stream took.
use libcold.Base.{
  ℕ, ◌+◌, ◌≤◌, ◌<◌, ◌≡◌, refl, sym, ap, ◌∙◌, List, [], ◌∷◌, ◌++◌, append-nil, append_assoc, false,
  Option, some, ltb-cases, take, drop, length, arith, inl, inr, subst, take-all, take-take-drop,
  length-drop,
}
use libcold.Sockets.{Call, returned, failed, System, Turn, Takes, await_write, eagain, is_ready}
use libcold.Sockets.Await.{await_connected-Fine}
use libcold.Sockets.Stream.{write_n, write_rounds, write_next}

-- A write that would block has taken nothing.
blocked-same :
    (buf : List ℕ) (c : Call ℕ) (before after : List ℕ)
    → Takes buf before c after
    → is_ready eagain c ≡ false
    → after ≡ before
blocked-same buf (returned k) before after h blocks = cc
blocked-same buf (failed e) before after h blocks = h

module _ (s : System) (fd : ℕ) (buf : List ℕ) where
  open s use {World, sent, write, write_lem}

  abbrev After : List ℕ → Call ℕ × World → Type 0
  After before r = Takes buf before r.0 (sent r.1 fd)

  await_write-Takes : (t : Turn) (w : World) → After (sent w fd) (await_write s t fd buf w)
  unfolding await_write
  await_write-Takes t w =
      await_connected-Fine (λ w'. write fd buf w') (After (sent w fd)) t (failed 0) w
        (write_lem fd buf w) (λ e. refl)
        (λ blocks.
          let same =
            blocked-same buf (write fd buf w).0 (sent w fd) (sent (write fd buf w).1 fd)
              (write_lem fd buf w) blocks in
          (
            (λ e. same),
            subst (λ b. After b (write fd buf (write fd buf w).1)) same
                (write_lem fd buf (write fd buf w).1),
          ))

abbrev pub IsWritten : List ℕ → List ℕ → Call ℕ → List ℕ → Type 0
IsWritten buf before (returned k) after = (k ≡ length buf) × (after ≡ before ++ buf)
IsWritten buf before (failed e) after = (k : ℕ) × (k < length buf) × (after ≡ before ++ take k buf)

module _ (s : System) (fd : ℕ) (buf : List ℕ) where
  open s use {World, sent}

  abbrev Ends : List ℕ → Option (Call ℕ × World) → Type 0
  Ends before o = (r : Call ℕ × World) × (o ≡ some r) × IsWritten buf before r.0 (sent r.1 fd)

  all_written :
      (already : ℕ) (before : List ℕ) (w : World)
      → length buf ≤ already
      → sent w fd ≡ before ++ take already buf
      → Ends before (some (returned (length buf), w))
  all_written already before w h e =
      ((returned (length buf), w), refl, (refl, e ∙ ap (λ b. before ++ b) (take-all buf already h)))

  next-Ends :
      (go : ℕ → World → Option (Call ℕ × World)) (already : ℕ) (before sent_before : List ℕ)
      (c : Call ℕ) (w : World)
      → already < length buf
      → sent_before ≡ before ++ take already buf
      → Takes (drop already buf) sent_before c (sent w fd)
      → ((k : ℕ)
          → already + k ≤ length buf
          → 1 ≤ k
          → sent w fd ≡ before ++ take (already + k) buf
          → Ends before (go (already + k) w))
      → Ends before (write_next s go already (c, w))
  next-Ends go already before sent_before (returned k) w h e (fits, some_byte, took) later =
      later k (omega (arith, length-drop already buf, fits))
        (omega (arith, length-drop already buf, some_byte))
        (took
          ∙ ap (λ b. b ++ take k (drop already buf)) e
          ∙ append_assoc before (take already buf) (take k (drop already buf))
          ∙ ap (λ b. before ++ b) (take-take-drop already k buf))
  next-Ends go already before sent_before (failed e') w h e same later =
      ((failed e', w), refl, (already, h, same ∙ e))

  write_rounds-Ends :
      (ts : List Turn) (already : ℕ) (before : List ℕ) (w : World)
      → already ≤ length buf
      → length buf ≤ already + length ts
      → sent w fd ≡ before ++ take already buf
      → Ends before (write_rounds s ts fd buf already w)
  unfolding write_rounds
  write_rounds-Ends [] already before w h enough e = elim (ltb-cases already (length buf)) [
    | inl (more, lt) ↦ absurd (omega arith)
    | inr (done, le) ↦ rw done (all_written already before w le e)
  ]
  write_rounds-Ends (t ∷ ts) already before w h enough e = elim (ltb-cases already (length buf)) [
    | inl (more, lt) ↦ rw more (
        let r = await_write s t fd (drop already buf) w in
        next-Ends (λ already' w'. write_rounds s ts fd buf already' w') already before (sent w fd)
          r.0 r.1 lt e (await_write-Takes s fd (drop already buf) t w)
          (λ k fits one e'. write_rounds-Ends ts (already + k) before r.1 fits (omega arith) e'))
    | inr (done, le) ↦ rw done (all_written already before w le e)
  ]

  -- WriteN ends within as many turns as there are bytes. It returns the number of bytes of the
  -- buffer, and then the stream took exactly the buffer; or it fails, and the stream took a part of
  -- the buffer from its begin that is not all of it.
  pub write_n-IsWritten :
      (ts : List Turn) (w : World)
      → length buf ≤ length ts
      → (r : Call ℕ × World) × (write_n s ts fd buf w ≡ some r)
        × IsWritten buf (sent w fd) r.0 (sent r.1 fd)
  unfolding write_n
  write_n-IsWritten ts w enough =
      write_rounds-Ends ts 0 (sent w fd) w (omega arith) (omega arith)
        (sym (append-nil (sent w fd)))
