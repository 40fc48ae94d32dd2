-- ===== src/Legacy/Sending.antt =====
-- `sendAll` of legacy/myhttpd.cc, over what each call of `write` answers.
use http_server.Prelude.{
  ℕ, zero, suc, ◌+◌, ◌≤◌, ◌<◌, ◌≡◌, ◌∙◌, refl, sym, ap, [], ◌∷◌, ◌++◌, ◌⊎◌, inl, inr, Bytes, arith,
  length, take, drop, ℤ, pos, negsuc, append_assoc, append-nil, take-append-drop, length-take,
  length-drop,
}

-- A client's socket: the bytes that it has taken, and the calls of `write` made so far.
pub record Socket : Type 0 where
  pub taken : Bytes
  pub calls : ℕ

-- What `write` of some bytes returns at a call: an error, or the number of bytes that it takes, no
-- more than there are.
abbrev pub write_at : ℤ → Bytes → Socket → ℤ × Socket
write_at (negsuc e) rest s = (negsuc e, record s { calls = suc s.calls })
write_at (pos n) rest s =
    (pos (length (take n rest)), record { taken = s.taken ++ take n rest; calls = suc s.calls })

abbrev pub after_write : (ℕ → Socket → ℤ × Socket) → ℤ × Socket → ℤ × Socket
after_write again (negsuc e, s) = (negsuc e, s)
after_write again (pos zero, s) = (pos 0, s)
after_write again (pos (suc n), s) = again (suc n) s

module _ (answer : ℕ → ℤ) where
  -- The loop: `rest` is what stands behind `p + total`. Each round that goes on takes a byte at least,
  -- so the length of the buffer is enough fuel.
  unfoldable pub send_loop : ℕ → Bytes → ℕ → Socket → ℤ × Socket
  send_loop zero rest total s = (pos total, s)
  send_loop (suc fuel) [] total s = (pos total, s)
  send_loop (suc fuel) (c ∷ rest) total s =
      after_write (λ n s'. send_loop fuel (drop n (c ∷ rest)) (total + n) s')
        (write_at (answer s.calls) (c ∷ rest) s)

  unfoldable pub send_all : Bytes → Socket → ℤ × Socket
  unfolding send_loop
  send_all buf s = send_loop (length buf) buf 0 s

-- `sent <= 0`.
abbrev pub IsStop : ℤ → Type 0
IsStop (pos n) = n ≡ 0
IsStop (negsuc e) = Unit

-- All of a buffer has been taken, behind `total` bytes; or a call of `write` has stopped the loop, and
-- a part has been taken that is not the whole.
abbrev pub SendsFrom : ℕ → Bytes → Socket → ℤ × Socket → Type 0
SendsFrom total rest s (r, s') =
    ((r ≡ pos (total + length rest)) × (s'.taken ≡ s.taken ++ rest))
    ⊎ (IsStop r × ((k : ℕ) × (k < length rest) × (s'.taken ≡ s.taken ++ take k rest)))

take-nil : (k : ℕ) → take {A = ℕ} k [] ≡ []
take-nil zero = refl
take-nil (suc k) = refl

take-add : (j k : ℕ) (xs : Bytes) → take j xs ++ take k (drop j xs) ≡ take (j + k) xs
take-add zero k xs = ap (λ (n : ℕ). take n xs) (omega arith)
take-add (suc j) k [] = take-nil k ∙ sym (take-nil (suc j + k))
take-add (suc j) k (x ∷ xs) =
    let e : suc (j + k) ≡ suc j + k = omega arith in
    ap (◌∷◌ x) (take-add j k xs) ∙ ap (λ (n : ℕ). take n (x ∷ xs)) e

take_taken : (n : ℕ) (xs : Bytes) → take (length (take n xs)) xs ≡ take n xs
take_taken zero xs = refl
take_taken (suc n) [] = refl
take_taken (suc n) (x ∷ xs) = ap (◌∷◌ x) (take_taken n xs)

-- One round more in front.
SendsFrom-round :
    (total n : ℕ) (c : ℕ) (rest : Bytes) (s : Socket) (out : ℤ × Socket)
    → SendsFrom
        (total + suc (length (take n rest)))
        (drop (length (take n rest)) rest)
        (record { taken = s.taken ++ c ∷ take n rest; calls = suc s.calls })
        out
    → SendsFrom total (c ∷ rest) s out
SendsFrom-round total n c rest s (r, s') (inl (e, all)) =
    let j = length (take n rest) in
    let whole : take n rest ++ drop j rest ≡ rest =
      ap (λ (l : Bytes). l ++ drop j rest) (sym (take_taken n rest)) ∙ take-append-drop j rest in
    let fits : total + suc j + length (drop j rest) ≡ total + suc (length rest) =
      omega (arith, length-take n rest, length-drop j rest) in
    inl (
      e ∙ ap pos fits,
      all
          ∙ append_assoc s.taken (c ∷ take n rest) (drop j rest)
          ∙ ap (λ (l : Bytes). s.taken ++ c ∷ l) whole,
    )
SendsFrom-round total n c rest s (r, s') (inr (stop, (k, short, part))) =
    let j = length (take n rest) in
    let whole : take n rest ++ take k (drop j rest) ≡ take (j + k) rest =
      ap (λ (l : Bytes). l ++ take k (drop j rest)) (sym (take_taken n rest)) ∙ take-add j k rest in
    inr (
      stop,
      (
        suc (j + k),
        omega (arith, short, length-take n rest, length-drop j rest),
        part
            ∙ append_assoc s.taken (c ∷ take n rest) (take k (drop j rest))
            ∙ ap (λ (l : Bytes). s.taken ++ c ∷ l) whole,
      ),
    )

module _ (answer : ℕ → ℤ) where
  SendsFrom-after_write :
      (fuel total c : ℕ) (rest : Bytes) (s : Socket)
      → ((n : ℕ)
          → SendsFrom
              (total + suc (length (take n rest)))
              (drop (length (take n rest)) rest)
              (record { taken = s.taken ++ c ∷ take n rest; calls = suc s.calls })
              (send_loop answer fuel
                (drop (length (take n rest)) rest)
                (total + suc (length (take n rest)))
                (record { taken = s.taken ++ c ∷ take n rest; calls = suc s.calls })))
      → (r : ℤ)
      → SendsFrom total (c ∷ rest) s (
          after_write
            (λ n s'. send_loop answer fuel (drop n (c ∷ rest)) (total + n) s')
            (write_at r (c ∷ rest) s))
  SendsFrom-after_write fuel total c rest s again (negsuc e) =
      inr (tt, (0, omega arith, sym (append-nil s.taken)))
  SendsFrom-after_write fuel total c rest s again (pos zero) = inr (refl, (0, omega arith, refl))
  SendsFrom-after_write fuel total c rest s again (pos (suc n)) =
      SendsFrom-round total n c rest s
        (send_loop answer fuel (drop (length (take n rest)) rest)
          (total + suc (length (take n rest)))
          (record { taken = s.taken ++ c ∷ take n rest; calls = suc s.calls }))
        (again n)

  send_loop-SendsFrom :
      (fuel : ℕ) (rest : Bytes) (total : ℕ) (s : Socket)
      → length rest ≤ fuel
      → SendsFrom total rest s (send_loop answer fuel rest total s)
  unfolding send_loop
  send_loop-SendsFrom zero [] total s h = inl (ap pos (omega arith), sym (append-nil s.taken))
  send_loop-SendsFrom zero (c ∷ rest) total s h = absurd (omega arith)
  send_loop-SendsFrom (suc fuel) [] total s h = inl (ap pos (omega arith), sym (append-nil s.taken))
  send_loop-SendsFrom (suc fuel) (c ∷ rest) total s h =
      SendsFrom-after_write fuel total c rest s
        (λ n.
          send_loop-SendsFrom fuel (drop (length (take n rest)) rest)
            (total + suc (length (take n rest)))
            (record { taken = s.taken ++ c ∷ take n rest; calls = suc s.calls })
            (omega (arith, length-drop (length (take n rest)) rest)))
        (answer s.calls)

  -- send_all hands all of its buffer to the socket, in order, and returns its length; or it returns a
  -- number that is not positive, and the socket has taken a part of the buffer that is not the whole.
  pub send_all-SendsFrom : (buf : Bytes) (s : Socket) → SendsFrom 0 buf s (send_all answer buf s)
  unfolding send_all
  send_all-SendsFrom buf s = send_loop-SendsFrom (length buf) buf 0 s (omega arith)
