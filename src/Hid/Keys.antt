-- ===== src/Hid/Keys.antt =====
-- Which keys the keyboard driver reports.
use mikanos_m1mac.Base.{
  ℕ, zero, suc, ◌+◌, ◌≤◌, ◌<◌, ◌≡◌, refl, subst, false≢true, true, false, not, ◌==◌, ◌||◌, ◌&&◌,
  List, [], ◌∷◌, ◌++◌, get_or, take, drop, length, arith,
}
use mikanos_m1mac.Endpoint.{is_in}
use mikanos_m1mac.Hid.{
  ParentDevice, Driver, contains, pushed_keys, copy_n, keyboard_data, on_interrupt_completed,
}

take-drop-suc :
    (i n : ℕ) (xs : List ℕ)
    → i < length xs
    → take (suc n) (drop i xs) ≡ get_or xs i 0 ∷ take n (drop (i + 1) xs)
take-drop-suc i n [] h = absurd (omega arith)
take-drop-suc zero n (x ∷ xs) h = refl
take-drop-suc (suc i) n (x ∷ xs) h =
    subst (λ (m : ℕ). take (suc n) (drop i xs) ≡ get_or xs i 0 ∷ take n (drop m (x ∷ xs)))
      {x = suc (i + 1)} {y = suc i + 1} (omega arith) (take-drop-suc i n xs (omega arith))

-- As a test: pushed are the nonzero keys of the report that the last one does not hold.
contains-pushed_keys :
    (i n k : ℕ) (buf prev : List ℕ)
    → i + n ≤ length buf
    → contains k (pushed_keys i n buf prev)
      ≡ (contains k (take n (drop i buf)) && not (k == 0) && not (contains k prev))
unfolding pushed_keys
contains-pushed_keys i zero k buf prev h = refl
contains-pushed_keys i (suc n) k buf prev h =
    ground (arith, take-drop-suc i n buf, contains-pushed_keys (i + 1) n k buf prev, same_key)
  where
    same_key : (get_or buf i 0 == k) ≡ true → get_or buf i 0 ≡ k
    same_key e = ground arith

-- The keys of a report are its bytes 2 to 7. `OnDataReceived` passes a key on exactly if the report
-- holds it, it is not 0, and no byte of the previous report's buffer, the modifier byte 0 included,
-- is the same number.
pub contains-keyboard_data :
    (k : ℕ) (d : Driver)
    → 8 ≤ length d.buf
    → contains k (keyboard_data d)
      ≡ (contains k (take 6 (drop 2 d.buf)) && not (k == 0) && not (contains k d.previous_buf))
contains-keyboard_data k d h = contains-pushed_keys 2 6 k d.buf d.previous_buf (omega arith)

contains-append :
    (k : ℕ) (xs ys : List ℕ) → contains k (xs ++ ys) ≡ (contains k xs || contains k ys)
contains-append k [] ys = refl
contains-append k (x ∷ xs) ys = ground (arith, contains-append k xs ys)

contains-take_more :
    (k m n : ℕ) (xs : List ℕ)
    → m ≤ n
    → contains k (take m xs) ≡ true
    → contains k (take n xs) ≡ true
contains-take_more k zero n xs h e = absurd (false≢true e)
contains-take_more k (suc m) zero xs h e = absurd (omega arith)
contains-take_more k (suc m) (suc n) [] h e = e
contains-take_more k (suc m) (suc n) (x ∷ xs) h e = ground (arith, contains-take_more k m n xs)

contains-inner :
    (k i m n : ℕ) (xs : List ℕ)
    → i + m ≤ n
    → contains k (take m (drop i xs)) ≡ true
    → contains k (take n xs) ≡ true
contains-inner k zero m n xs h e = contains-take_more k m n xs (omega arith) e
contains-inner k (suc i) zero n [] h e = absurd (false≢true e)
contains-inner k (suc i) (suc m) n [] h e = absurd (false≢true e)
contains-inner k (suc i) m zero (x ∷ xs) h e = absurd (omega arith)
contains-inner k (suc i) m (suc n) (x ∷ xs) h e =
    ground (arith, contains-inner k i m n xs (omega arith) e)

nothing_contained : (xs : List ℕ) → ((k : ℕ) → contains k xs ≡ false) → xs ≡ []
nothing_contained [] h = refl
nothing_contained (x ∷ xs) h = absurd (ground (arith, h x))

module _ {ℓ} {D : Type ℓ} (parent : ParentDevice D) where
  -- A report that comes twice, and is read in full, pushes no key the second time.
  pub keyboard_data-again :
      (ep_id len : ℕ) (d : Driver) (dev : D)
      → is_in ep_id ≡ true
      → 8 ≤ len
      → 8 ≤ length d.buf
      → keyboard_data ((on_interrupt_completed parent keyboard_data ep_id len d dev).2) ≡ []
  unfolding on_interrupt_completed
  keyboard_data-again ep_id len d dev into full long = rw into (
      nothing_contained _ λ k. ground (
        arith,
        contains-pushed_keys 2 6 k d.buf (copy_n len d.buf d.previous_buf),
        contains-append k (take len d.buf) (drop len d.previous_buf),
        contains-inner k 2 6 len d.buf (omega arith),
      ))
