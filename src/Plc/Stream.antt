-- ===== src/Plc/Stream.antt =====
-- A connection as a stream, and `_recv_exact`. What `recv` does is that of a TCP socket: the bytes
-- arrive in chunks that are not empty, a call gets at most what it asks for and leaves the rest of
-- the chunk, and it gets nothing once the peer has closed.
use model_lib.Prelude.{
  ℕ, zero, suc, ◌-◌, List, [], ◌∷◌, ◌++◌, if◌then◌else◌, ◌==◌, length, take, drop,
}
use model_lib.Text.{Bytes}

-- A chunk is its first byte and the others.
abbrev pub Socket : Type 0
Socket = List (ℕ × Bytes)

abbrev pub chunk_bytes : ℕ × Bytes → Bytes
chunk_bytes (b, bs) = b ∷ bs

unfoldable pub all_bytes : Socket → Bytes
all_bytes [] = []
all_bytes (c ∷ cs) = chunk_bytes c ++ all_bytes cs

-- What is left of a chunk.
unfoldable pub put_back : Bytes → Socket → Socket
put_back [] s = s
put_back (b ∷ bs) s = (b, bs) ∷ s

unfoldable pub recv : ℕ → Socket → Bytes × Socket
unfolding put_back
recv size [] = ([], [])
recv size (c ∷ cs) = (take size (chunk_bytes c), put_back (drop size (chunk_bytes c)) cs)

-- The loop of `_recv_exact`, by fuel that is at least what is still needed: each turn gets a byte
-- or more, and an empty chunk means that the peer has closed.
unfoldable pub recv_loop : ℕ → ℕ → Bytes → Socket → Bytes × Socket
unfolding recv
recv_loop zero needed received s = (received, s)
recv_loop (suc fuel) needed received s =
    let got = recv needed s in
    let rest = elim got.0 as (λ _. Bytes × Socket) [
      | [] ↦ ([], got.1)
      | b ∷ bs ↦ recv_loop fuel (needed - length (b ∷ bs)) (received ++ b ∷ bs) got.1
    ] in
    if needed == 0 then (received, s) else rest

unfoldable pub recv_exact : ℕ → Socket → Bytes × Socket
unfolding recv_loop
recv_exact size s = recv_loop size size [] s

-- `_recv_enqueue_frame`
unfoldable pub recv_enqueue_frame : Socket → Bytes × Socket
unfolding recv_exact
recv_enqueue_frame s = recv_exact 6 s
