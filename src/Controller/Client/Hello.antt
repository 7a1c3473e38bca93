-- ===== src/Controller/Client/Hello.antt =====
-- The handshake of the two sides, `ctrl_client_init` and `ctrl_server_thread`.
use gaminganywhere.Base.{
  ℕ, suc, ◌+◌, ◌-◌, ◌≤◌, ◌≡◌, sym, ap, ◌∙◌, arith, [], ◌∷◌, ◌++◌, length, take, replicate, ◌==◌,
  length-append, append_assoc, take_all,
}
use gaminganywhere.Controller.Client.{hello, hello_length, strncpy, max_id_length}
use gaminganywhere.Controller.Server.{Bytes, same_bytes, handshake}

-- Equal blocks in front of two bytes leave the comparison to the bytes.
same_bytes-append :
    (xs : Bytes) (b c : ℕ) (ys zs : Bytes)
    → same_bytes (suc (length xs)) (xs ++ b ∷ ys) (xs ++ c ∷ zs) ≡ (b == c)
unfolding same_bytes
same_bytes-append [] b c ys zs = ground arith
same_bytes-append (x ∷ xs) b c ys zs = ground (arith, same_bytes-append xs b c ys zs)

take-append_add : (xs ys : Bytes) (n : ℕ) → take (length xs + n) (xs ++ ys) ≡ xs ++ take n ys
take-append_add [] ys n = let e : 0 + n ≡ n = omega arith in ap (λ k. take k ys) e
take-append_add (x ∷ xs) ys n =
    let e : suc (length xs) + n ≡ suc (length xs + n) = omega arith in
    ap (λ k. take k (x ∷ xs ++ ys)) e ∙ ap (◌∷◌ x) (take-append_add xs ys n)

module _ (id : Bytes) (fits : length id + 1 ≤ max_id_length) where
  hello_length_lem : hello_length id ≡ suc (suc (length id))
  hello_length_lem = ground arith

  -- What is sent is the length, the id and its null byte.
  hello_lem : hello id ≡ suc (suc (length id)) ∷ (id ++ 0 ∷ [])
  unfolding hello
  hello_lem =
      let sum : suc (length id) ≡ length id + 1 = omega arith in
      let pad : max_id_length - length id ≡ suc (max_id_length - length id - 1) = omega arith in
      rw hello_length_lem (
        ap (◌∷◌ (suc (suc (length id)))) (
          ap (λ n. take n (strncpy max_id_length id)) sum
          ∙ ap (λ l. take (length id + 1) (l ++ replicate (max_id_length - length id) 0))
              (take_all max_id_length id (omega arith))
          ∙ take-append_add id (replicate (max_id_length - length id) 0) 1
          ∙ ap (λ n. id ++ take 1 (replicate n 0)) pad))

  -- The server that knows the same id compares one byte more than the id and its null byte: it takes
  -- the handshake exactly when the byte `b` behind its own copy is the byte `c` that stood in the
  -- buffer behind the bytes received.
  pub handshake-hello :
      (b c : ℕ) (behind stale : Bytes)
      → handshake (id ++ 0 ∷ b ∷ behind) (hello id ++ c ∷ stale) (length (hello id)) ≡ (b == c)
  unfolding handshake
  handshake-hello b c behind stale =
      let count : length (id ++ 0 ∷ []) ≡ suc (length id) =
        length-append id (0 ∷ []) ∙ omega arith in
      rw hello_lem (
        rw (sym (append_assoc id (0 ∷ []) (b ∷ behind)), count)
          (ground (arith, same_bytes-append (id ++ 0 ∷ []) b c behind stale)))
