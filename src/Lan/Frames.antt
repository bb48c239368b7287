-- ===== src/Lan/Frames.antt =====
-- qnsd/lan/frame.py: frames with a length before them, on a stream that arrives in chunks. A chunk is
-- what one `recv` may give at most; `recv(n)` leaves what is past `n` for the next. An empty chunk, and
-- the end of the list, is a connection that was closed. JSON is the parameter `parse`.
use qnm_node.Base.{
  ℕ, zero, suc, ◌-◌, ◌≤◌, ◌≡◌, refl, sym, ap, ◌∙◌, inl, inr, false, ◌||◌, Option, none, some, List,
  [], ◌∷◌, ◌++◌, arith, ltb, leb, list_eq, nat_eq, Bool-cases, length, length-append, Result, ok,
  refuse, Act, if◌then◌else◌,
}
use qnm_node.Base.{lan_malformed, lan_unavailable}
use mathlib.Core.Path.{subst}
use mathlib.Core.List.{append_assoc}
use qnm_node.Bytes.{take, drop, take-drop, length-drop, to_bytes4, from_bytes, from_bytes-to_bytes4}

abbrev pub max_frame : ℕ
max_frame = 65536

-- `b"".join(...)`
unfoldable pub stream : List (List ℕ) → List ℕ
stream [] = []
stream (c ∷ chunks) = c ++ stream chunks

abbrev before : List ℕ → Result (List ℕ) × List (List ℕ) → Result (List ℕ) × List (List ℕ)
before c (refuse code, chunks) = (refuse code, chunks)
before c (ok buf, chunks) = (ok (c ++ buf), chunks)

-- `_read_exact(sock, count)`: the bytes, and what is left to arrive
unfoldable pub read_exact : ℕ → Act (List (List ℕ)) (List ℕ)
read_exact zero chunks = (ok [], chunks)
read_exact (suc count) [] = (refuse lan_unavailable, [])
read_exact (suc count) ([] ∷ chunks) = (refuse lan_unavailable, chunks)
read_exact (suc count) ((b ∷ c) ∷ chunks) =
    let rest = before (b ∷ c) (read_exact (suc count - length (b ∷ c)) chunks) in
    if leb (length (b ∷ c)) (suc count)
    then rest
    else (ok (take (suc count) (b ∷ c)), drop (suc count) (b ∷ c) ∷ chunks)

module _ {A : Type 0} (parse : List ℕ → Option A) where
  abbrev parsed : Result (List ℕ) × List (List ℕ) → Result A × List (List ℕ)
  parsed (refuse code, chunks) = (refuse code, chunks)
  parsed (ok raw, chunks) = elim (parse raw) [
    | none ↦ (refuse lan_malformed, chunks)
    | some obj ↦ (ok obj, chunks)
  ]

  abbrev read_body : Result (List ℕ) × List (List ℕ) → Result A × List (List ℕ)
  read_body (refuse code, chunks) = (refuse code, chunks)
  read_body (ok header, chunks) =
      let size = from_bytes 0 header in
      if ltb size 1 || ltb max_frame size
      then (refuse lan_malformed, chunks)
      else parsed (read_exact size chunks)

  -- `read_frame(sock)`
  unfoldable pub read_frame : Act (List (List ℕ)) A
  unfolding read_exact
  read_frame chunks = read_body (read_exact 4 chunks)

-- `encode_frame(obj)`, of the JSON of the object
unfoldable pub encode_frame : List ℕ → Result (List ℕ)
encode_frame raw =
    if ltb (length raw) 1 || ltb max_frame (length raw)
    then refuse lan_malformed
    else ok (to_bytes4 (length raw) ++ raw)

-- No chunk is empty: the connection stays up.
abbrev pub NoneEmpty : List (List ℕ) → Type 0
NoneEmpty [] = Unit {0}
NoneEmpty (c ∷ chunks) = (1 ≤ length c) × NoneEmpty chunks

length-take : (n : ℕ) (xs : List ℕ) → n ≤ length xs → length (take n xs) ≡ n
unfolding take
length-take zero xs l = refl
length-take (suc n) [] l = absurd (omega arith)
length-take (suc n) (x ∷ xs) l = omega (arith, length-take n xs (omega (arith, l)))

-- Reading as many bytes as will arrive gives them, in whatever chunks they come.
record IsDrained (count : ℕ) (chunks : List (List ℕ)) : Type 0 where
  buf : List ℕ
  left : List (List ℕ)
  done : read_exact count chunks ≡ (ok buf, left)
  exact : length buf ≡ count
  split : buf ++ stream left ≡ stream chunks
  nonempty : NoneEmpty left

read_exact-IsDrained :
    (count : ℕ) (chunks : List (List ℕ))
    → NoneEmpty chunks
    → count ≤ length (stream chunks)
    → IsDrained count chunks
unfolding read_exact stream
read_exact-IsDrained zero chunks n l = record {
  buf = [];
  left = chunks;
  done = refl;
  exact = refl;
  split = refl;
  nonempty = n;
}
read_exact-IsDrained (suc count) [] n l = absurd (omega arith)
read_exact-IsDrained (suc count) ([] ∷ chunks) n l = absurd (omega (arith, n.0))
read_exact-IsDrained (suc count) ((b ∷ c) ∷ chunks) n l =
    elim (Bool-cases (leb (length (b ∷ c)) (suc count))) [
      | inl whole ↦
          let r =
            read_exact-IsDrained (suc count - length (b ∷ c)) chunks n.1
              (ground (arith, l, length-append (b ∷ c) (stream chunks))) in
          record {
            buf = (b ∷ c) ++ r.buf;
            left = r.left;
            done = rw (read_exact, whole, r.done) refl;
            exact = ground (arith, whole, r.exact, length-append (b ∷ c) r.buf);
            split = append_assoc (b ∷ c) r.buf (stream r.left) ∙ ap (λ t. (b ∷ c) ++ t) r.split;
            nonempty = r.nonempty;
          }
      | inr part ↦ record {
        buf = take (suc count) (b ∷ c);
        left = drop (suc count) (b ∷ c) ∷ chunks;
        done = rw (read_exact, part) refl;
        exact = length-take (suc count) (b ∷ c) (ground (arith, part));
        split =
            sym (append_assoc (take (suc count) (b ∷ c)) (drop (suc count) (b ∷ c)) (stream chunks))
            ∙ ap (λ t. t ++ stream chunks) (take-drop (suc count) (b ∷ c));
        nonempty = (ground (arith, part, length-drop (suc count) (b ∷ c)), n.1);
      }
    ]

append-split : (a b c d : List ℕ) → length a ≡ length c → a ++ b ≡ c ++ d → (a ≡ c) × (b ≡ d)
append-split [] b [] d l e = (refl, e)
append-split [] b (y ∷ c) d l e = absurd (omega (arith, l))
append-split (x ∷ a) b [] d l e = absurd (omega (arith, l))
append-split (x ∷ a) b (y ∷ c) d l e =
    let r = append-split a b c d (omega (arith, l)) (cc) in (cc (r.0), r.1)

length-to_bytes4 : (n : ℕ) → length (to_bytes4 n) ≡ 4
unfolding to_bytes4
length-to_bytes4 n = refl

module _ {A : Type 0} (parse : List ℕ → Option A) where
  parsed-ok :
      (raw : List ℕ) (left : List (List ℕ)) (obj : A)
      → parse raw ≡ some obj
      → parsed parse (ok raw, left) ≡ (ok obj, left)
  parsed-ok raw left obj p = rw (parsed, p) refl

  read_frame-read :
      (chunks left left' : List (List ℕ)) (header raw : List ℕ) (obj : A)
      → read_exact 4 chunks ≡ (ok header, left)
      → (ltb (from_bytes 0 header) 1 || ltb max_frame (from_bytes 0 header)) ≡ false
      → read_exact (from_bytes 0 header) left ≡ (ok raw, left')
      → parse raw ≡ some obj
      → read_frame parse chunks ≡ (ok obj, left')
  unfolding read_frame
  read_frame-read chunks left left' header raw obj h size body p =
      rw (read_frame, h, size, body) (parsed-ok raw left' obj p)

  in_cap :
      (raw : List ℕ)
      → 1 ≤ length raw
      → length raw ≤ max_frame
      → (ltb (length raw) 1 || ltb max_frame (length raw)) ≡ false
  in_cap raw some_byte small = ground (arith, some_byte, small)

  encode_frame-ok :
      (raw bytes : List ℕ)
      → encode_frame raw ≡ ok bytes
      → (1 ≤ length raw) × (length raw ≤ max_frame) × (to_bytes4 (length raw) ++ raw ≡ bytes)
  unfolding encode_frame
  encode_frame-ok raw bytes e =
      elim (Bool-cases (ltb (length raw) 1 || ltb max_frame (length raw))) [
        | inl out ↦ absurd (ground (arith, e))
        | inr fits ↦ (ground (arith, fits), ground (arith, fits), ground (arith, e))
      ]

  -- A frame that was written is read, in whatever chunks its bytes and those after it arrive while
  -- the connection stays up, and exactly the bytes after it are left.
  pub read_frame-encode_frame :
      (raw bytes rest : List ℕ) (obj : A) (chunks : List (List ℕ))
      → encode_frame raw ≡ ok bytes
      → parse raw ≡ some obj
      → NoneEmpty chunks
      → stream chunks ≡ bytes ++ rest
      → (left : List (List ℕ)) × (read_frame parse chunks ≡ (ok obj, left)) × (stream left ≡ rest)
  read_frame-encode_frame raw bytes rest obj chunks e p n arrives =
      let (some_byte, small, same) = encode_frame-ok raw bytes e in
      let whole =
        arrives ∙ ap (λ t. t ++ rest) (sym same) ∙ append_assoc (to_bytes4 (length raw)) raw rest in
      let total = ap length whole ∙ length-append (to_bytes4 (length raw)) (raw ++ rest) in
      let h =
        read_exact-IsDrained 4 chunks n (omega (arith, total, length-to_bytes4 (length raw))) in
      let (header, after) =
        append-split h.buf (stream h.left) (to_bytes4 (length raw)) (raw ++ rest)
          (h.exact ∙ sym (length-to_bytes4 (length raw))) (h.split ∙ whole) in
      let size =
        ap (from_bytes 0) header ∙ from_bytes-to_bytes4 (length raw) (omega (arith, small)) in
      let b =
        read_exact-IsDrained (length raw) h.left h.nonempty
          (omega (arith, ap length after, length-append raw rest)) in
      let (body, left) = append-split b.buf (stream b.left) raw rest b.exact (b.split ∙ after) in
      (
        b.left,
        read_frame-read chunks h.left b.left h.buf b.buf obj h.done
            (rw size (in_cap raw some_byte small))
            (subst (λ k. read_exact k h.left ≡ (ok b.buf, b.left)) (sym size) b.done)
            (ap parse body ∙ p),
        left,
      )
