-- ===== src/Sockets/Filled.antt =====
-- ReadN: what is in the buffer.
use libcold.Base.{
  ℕ, ◌+◌, ◌-◌, ◌≤◌, ◌<◌, ◌≡◌, ◌⊎◌, inl, inr, refl, sym, ap, ◌∙◌, subst, List, [], ◌∷◌, ◌++◌,
  append-nil, append_assoc, false, Option, some, ltb-cases, length, arith, length-append,
}
use libcold.Sockets.{Call, returned, failed, System, Turn, Gives, await_read, eagain, is_ready}
use libcold.Sockets.Await.{await_connected-Fine}
use libcold.Sockets.Stream.{Filling, read_n, read_rounds, read_next}

-- A read that would block has given nothing.
blocked-same :
    (count : ℕ) (c : Call (List ℕ)) (before after : List ℕ)
    → Gives count before c after
    → is_ready eagain c ≡ false
    → after ≡ before
blocked-same count (returned k) before after h blocks = cc
blocked-same count (failed e) before after h blocks = h

module _ (s : System) (fd count : ℕ) where
  open s use {World, given, read, read_lem}

  abbrev After : List ℕ → Call (List ℕ) × World → Type 0
  After before r = Gives count before r.0 (given r.1 fd)

  await_read-Gives : (t : Turn) (w : World) → After (given w fd) (await_read s t fd count w)
  unfolding await_read
  await_read-Gives t w =
      await_connected-Fine (λ w'. read fd count w') (After (given w fd)) t (returned []) w
        (read_lem fd count w) (λ e. refl)
        (λ blocks.
          let same =
            blocked-same count (read fd count w).0 (given w fd) (given (read fd count w).1 fd)
              (read_lem fd count w) blocks in
          (
            (λ e. same),
            subst (λ b. After b (read fd count (read fd count w).1)) same
                (read_lem fd count (read fd count w).1),
          ))

-- n with all bytes, 0 or an error with fewer.
abbrev pub IsResult : ℕ → Call ℕ → ℕ → Type 0
IsResult n (returned k) got = ((k ≡ n) × (got ≡ n)) ⊎ ((k ≡ 0) × (got < n))
IsResult n (failed e) got = got < n

module _ (s : System) (fd n : ℕ) where
  open s use {World, given}

  abbrev Ends : List ℕ → Option (Filling World) → Type 0
  Ends before o =
      (f : Filling World) × (o ≡ some f)
      × IsResult n f.result (length f.buffer)
      × (given f.world fd ≡ before ++ f.buffer)

  all_read :
      (buf before : List ℕ) (w : World)
      → length buf ≤ n
      → n ≤ length buf
      → given w fd ≡ before ++ buf
      → Ends before (some (record { result = returned n; buffer = buf; world = w }))
  all_read buf before w h h' e =
      (record { result = returned n; buffer = buf; world = w }, refl, inl (refl, omega arith), e)

  next-Ends :
      (go : List ℕ → World → Option (Filling World)) (buf before given_before : List ℕ)
      (c : Call (List ℕ)) (w : World)
      → length buf < n
      → given_before ≡ before ++ buf
      → Gives (n - length buf) given_before c (given w fd)
      → ((buf' : List ℕ)
          → length buf' ≤ n
          → length buf < length buf'
          → given w fd ≡ before ++ buf'
          → Ends before (go buf' w))
      → Ends before (read_next s go buf (c, w))
  next-Ends go buf before given_before (returned []) w h e (fits, gave) later = (
    record { result = returned 0; buffer = buf; world = w },
    refl,
    inr (refl, h),
    gave ∙ append-nil given_before ∙ e,
  )
  next-Ends go buf before given_before (returned (b ∷ bytes)) w h e (fits, gave) later =
      later (buf ++ b ∷ bytes) (omega (arith, length-append buf (b ∷ bytes), fits))
        (omega (arith, length-append buf (b ∷ bytes)))
        (gave ∙ ap (λ g. g ++ b ∷ bytes) e ∙ append_assoc before buf (b ∷ bytes))
  next-Ends go buf before given_before (failed e') w h e same later =
      (record { result = failed e'; buffer = buf; world = w }, refl, h, same ∙ e)

  read_rounds-Ends :
      (ts : List Turn) (buf before : List ℕ) (w : World)
      → length buf ≤ n
      → n ≤ length buf + length ts
      → given w fd ≡ before ++ buf
      → Ends before (read_rounds s ts fd n buf w)
  unfolding read_rounds
  read_rounds-Ends [] buf before w h enough e = elim (ltb-cases (length buf) n) [
    | inl (more, lt) ↦ absurd (omega arith)
    | inr (done, le) ↦ rw done (all_read buf before w h le e)
  ]
  read_rounds-Ends (t ∷ ts) buf before w h enough e = elim (ltb-cases (length buf) n) [
    | inl (more, lt) ↦ rw more (
        let r = await_read s t fd (n - length buf) w in
        next-Ends (λ buf' w'. read_rounds s ts fd n buf' w') buf before (given w fd) r.0 r.1 lt e
          (await_read-Gives s fd (n - length buf) t w)
          (λ buf' fits longer e'. read_rounds-Ends ts buf' before r.1 fits (omega arith) e'))
    | inr (done, le) ↦ rw done (all_read buf before w h le e)
  ]

  -- ReadN ends within n turns. The buffer has exactly the bytes that the stream gave meanwhile, in
  -- their order: n bytes with the result n, fewer with the result 0 or an error.
  pub read_n-IsResult :
      (ts : List Turn) (w : World)
      → n ≤ length ts
      → (f : Filling World) × (read_n s ts fd n w ≡ some f)
        × IsResult n f.result (length f.buffer)
        × (given f.world fd ≡ given w fd ++ f.buffer)
  unfolding read_n
  read_n-IsResult ts w enough =
      read_rounds-Ends ts [] (given w fd) w (omega arith) (omega arith)
        (sym (append-nil (given w fd)))
