-- ===== src/Rpc/Channel/Stream.antt =====
-- The read loop against the stream that the peer wrote.
use libcold.Base.{
  ℕ, ◌+◌, ◌<◌, ◌≡◌, refl, sym, ap, ◌∙◌, inl, inr, List, [], ◌∷◌, ◌++◌, append-nil, append_assoc,
  none, some, arith, length, length-append, Every, append-split,
}
use libcold.Rpc.Codec.{RpcCodec, parse_message, parse_buffer, take_message, u64_mod}
use libcold.Rpc.Codec.RoundTrip.{
  frame, parse_buffer-frame, parse_buffer-prefix, view_bytes-frame, drop-frame,
}
use libcold.Rpc.Channel.{rpc_read, do_rpc, take_found}

-- The bytes that a peer writes for messages sent in order.
abbrev pub stream : List (List ℕ) → List ℕ
stream [] = []
stream (m ∷ ms) = frame m ++ stream ms

abbrev pub concat : List (List ℕ) → List ℕ
concat [] = []
concat (r ∷ rs) = r ++ concat rs

abbrev pub AreSmall : List (List ℕ) → Type 0
AreSmall = Every (λ m. length m + 8 < u64_mod)

rpc_read-frame :
    (c : RpcCodec) (r m z : List ℕ)
    → length m + 8 < u64_mod
    → c.read_buf ++ r ≡ frame m ++ z
    → rpc_read c r ≡ (record c { read_buf = z }, some m)
unfolding rpc_read parse_message take_message
rpc_read-frame c r m z small e =
    ground (arith, parse_buffer-frame m z small, view_bytes-frame m z small, drop-frame m z small)

rpc_read-prefix :
    (c : RpcCodec) (r m z : List ℕ)
    → length m + 8 < u64_mod
    → frame m ≡ (c.read_buf ++ r) ++ z
    → 0 < length z
    → rpc_read c r ≡ (record c { read_buf = c.read_buf ++ r }, none)
unfolding rpc_read parse_message
rpc_read-prefix c r m z small e more =
    rw (parse_buffer-prefix m (c.read_buf ++ r) z small (sym e) more, take_found)

rpc_read-nothing :
    (c : RpcCodec) (r : List ℕ)
    → length (c.read_buf ++ r) < 8
    → rpc_read c r ≡ (record c { read_buf = c.read_buf ++ r }, none)
unfolding rpc_read parse_message parse_buffer
rpc_read-nothing c r h = ground arith

-- `sent` begins with `ms`, and the codec's buffer and the later bytes hold the rest.
abbrev pub Delivers : List (List ℕ) → RpcCodec × List (List ℕ) → Type 0
Delivers sent (c, ms) = (later : List (List ℕ)) × (sent ≡ ms ++ later) × (c.read_buf ≡ stream later)

-- However the stream of a peer is cut into reads, the messages dispatched are the first that were
-- sent, in order and whole, and the bytes of all others are still in the buffer.
pub do_rpc-Delivers :
    (c : RpcCodec) (rs sent : List (List ℕ))
    → AreSmall sent
    → c.read_buf ++ concat rs ≡ stream sent
    → Delivers sent (do_rpc c rs)
unfolding do_rpc
do_rpc-Delivers c [] sent small e = (sent, refl, sym (append-nil c.read_buf) ∙ e)
do_rpc-Delivers c (r ∷ rs) [] small e =
    let e' : length (c.read_buf ++ r) + length (concat rs) ≡ 0 =
      rw (← length-append, append_assoc, e) in
    rw (rpc_read-nothing c r (omega arith))
      (do_rpc-Delivers _ rs [] tt (append_assoc c.read_buf r (concat rs) ∙ e))
do_rpc-Delivers c (r ∷ rs) (m ∷ sent) small e =
    elim (append-split (c.read_buf ++ r) (concat rs) (frame m) (stream sent)
      (append_assoc c.read_buf r (concat rs) ∙ e)) [
        | inl (z, p, q) ↦
            rw (rpc_read-prefix c r m z small.0 p q)
              (do_rpc-Delivers _ rs (m ∷ sent) small (append_assoc c.read_buf r (concat rs) ∙ e))
        | inr (z, p, q) ↦ rw (rpc_read-frame c r m z small.0 p) (
            let (later, all, held) = do_rpc-Delivers _ rs sent small.1 (sym q) in
            (later, ap (◌∷◌ m) all, held))
      ]

abbrev pub frames : List (List ℕ) → List (List ℕ)
frames [] = []
frames (m ∷ ms) = frame m ∷ frames ms
