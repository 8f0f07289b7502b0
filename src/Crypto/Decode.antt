-- ===== src/Crypto/Decode.antt =====
-- What the Base64 decoder writes and accepts.
use libcold.Base.{
  ℕ, ◌+◌, ◌*◌, ◌/◌, ◌%◌, ◌≤◌, ◌<◌, ◌≡◌, ◌≢◌, Bool-cases, inl, inr, refl, List, [], ◌∷◌, false, not,
  Option, none, some, arith, length, length-append, AreBytes, Every-append, is_empty,
}
use libcold.Crypto.{
  Group, Decoded, decode_group, decode_loop, check_group, write_round, base64_decode,
}

decode_group-length : (g : Group) → length (decode_group g) ≤ 3
unfolding decode_group
decode_group-length g = ground arith

decode_group-AreBytes : (g : Group) → AreBytes (decode_group g)
unfolding decode_group
decode_group-AreBytes g = ground arith

write_round-length :
    (o : Option Group) (d : Decoded) (n : ℕ)
    → length d.written ≤ n * 3 / 4
    → length (write_round o d).written ≤ (n + 4) * 3 / 4
unfolding write_round
write_round-length none d n h = omega arith
write_round-length (some g) d n h =
    omega (arith, decode_group-length g, length-append (decode_group g) d.written)

-- The decoder writes at most size * 3 / 4 bytes, the size that it gave the buffer: no write is out
-- of bounds, also on an input that is refused later.
pub decode_loop-bound : (s : List ℕ) → length (decode_loop s).written ≤ length s * 3 / 4
unfolding decode_loop
decode_loop-bound [] = omega arith
decode_loop-bound (a ∷ []) = omega arith
decode_loop-bound (a ∷ b ∷ []) = omega arith
decode_loop-bound (a ∷ b ∷ c ∷ []) = omega arith
decode_loop-bound (a ∷ b ∷ c ∷ d ∷ s) = omega (
  arith,
  write_round-length (check_group (a ∷ b ∷ c ∷ d ∷ []) (not (is_empty s))) (decode_loop s)
      (length s) (decode_loop-bound s),
)

write_round-AreBytes :
    (o : Option Group) (d : Decoded) → AreBytes d.written → AreBytes (write_round o d).written
unfolding write_round
write_round-AreBytes none d h = tt
write_round-AreBytes (some g) d h =
    Every-append (λ b. b < 256) (decode_group g) d.written (decode_group-AreBytes g) h

decode_loop-AreBytes : (s : List ℕ) → AreBytes (decode_loop s).written
unfolding decode_loop
decode_loop-AreBytes [] = tt
decode_loop-AreBytes (a ∷ []) = tt
decode_loop-AreBytes (a ∷ b ∷ []) = tt
decode_loop-AreBytes (a ∷ b ∷ c ∷ []) = tt
decode_loop-AreBytes (a ∷ b ∷ c ∷ d ∷ s) =
    write_round-AreBytes (check_group (a ∷ b ∷ c ∷ d ∷ []) (not (is_empty s))) (decode_loop s)
      (decode_loop-AreBytes s)

write_round-done :
    (o : Option Group) (d : Decoded) → d.done ≡ false → (write_round o d).done ≡ false
unfolding write_round
write_round-done none d h = refl
write_round-done (some g) d h = h

decode_loop-partial : (s : List ℕ) → length s % 4 ≢ 0 → (decode_loop s).done ≡ false
unfolding decode_loop
decode_loop-partial [] h = absurd (h refl)
decode_loop-partial (a ∷ []) h = refl
decode_loop-partial (a ∷ b ∷ []) h = refl
decode_loop-partial (a ∷ b ∷ c ∷ []) h = refl
decode_loop-partial (a ∷ b ∷ c ∷ d ∷ s) h = ground (
  arith,
  write_round-done (check_group (a ∷ b ∷ c ∷ d ∷ []) (not (is_empty s))) (decode_loop s),
  decode_loop-partial s (λ e. h (omega arith)),
)

-- Whatever text is given, the result is a byte string that fits the buffer made for it.
pub decode_sound :
    (s : List ℕ) → AreBytes (base64_decode s) × (length (base64_decode s) ≤ length s * 3 / 4)
unfolding base64_decode
decode_sound s = elim (Bool-cases (decode_loop s).done) [
  | inl e ↦ rw e (decode_loop-AreBytes s, decode_loop-bound s)
  | inr e ↦ rw e (tt, omega arith)
]
