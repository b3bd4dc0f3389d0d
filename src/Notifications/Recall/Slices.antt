-- ===== src/Notifications/Recall/Slices.antt =====
-- internal/notifications/router.go: parts of the array of identifiers, and membership.
use dsh_work.Prelude.{
  ℕ, zero, suc, ◌-◌, ◌≤◌, ◌<◌, String, ◌==◌, ◌≡◌, refl, ap, Bool, false, ◌||◌, List, [], ◌∷◌, ◌++◌,
  length, set, arith, eq_iff,
}
use dsh_work.Notifications.Recall.{at_slot}

abbrev pub take : ℕ → List String → List String
take zero xs = []
take (suc n) [] = []
take (suc n) (x ∷ xs) = x ∷ take n xs

abbrev pub drop : ℕ → List String → List String
drop zero xs = xs
drop (suc n) [] = []
drop (suc n) (x ∷ xs) = drop n xs

abbrev pub member : String → List String → Bool
member k [] = false
member k (j ∷ js) = j == k || member k js

abbrev pub Distinct : List String → Type 0
Distinct [] = Unit
Distinct (x ∷ xs) = (member x xs ≡ false) × Distinct xs

pub take-set :
    (n : ℕ) (xs : List String) (v : String)
    → n < length xs
    → take (suc n) (set xs n v) ≡ take n xs ++ v ∷ []
take-set n [] v h = absurd (omega arith)
take-set zero (x ∷ xs) v h = refl
take-set (suc n) (x ∷ xs) v h = ap (λ l. x ∷ l) (take-set n xs v (omega arith))

pub take-set_self : (n : ℕ) (xs : List String) (v : String) → take n (set xs n v) ≡ take n xs
take-set_self zero xs v = refl
take-set_self (suc n) [] v = refl
take-set_self (suc n) (x ∷ xs) v = ap (λ l. x ∷ l) (take-set_self n xs v)

pub drop-set : (n : ℕ) (xs : List String) (v : String) → drop (suc n) (set xs n v) ≡ drop (suc n) xs
drop-set n [] v = refl
drop-set zero (x ∷ xs) v = refl
drop-set (suc n) (x ∷ xs) v = drop-set n xs v

pub length-take : (n : ℕ) (xs : List String) → n ≤ length xs → length (take n xs) ≡ n
length-take zero xs h = refl
length-take (suc n) [] h = absurd (omega arith)
length-take (suc n) (x ∷ xs) h = omega (arith, length-take n xs (omega arith))

pub length-drop : (n : ℕ) (xs : List String) → length (drop n xs) ≡ length xs - n
length-drop zero xs = omega arith
length-drop (suc n) [] = omega arith
length-drop (suc n) (x ∷ xs) = omega (arith, length-drop n xs)

pub take_all : (xs : List String) → take (length xs) xs ≡ xs
take_all [] = refl
take_all (x ∷ xs) = ap (λ l. x ∷ l) (take_all xs)

pub drop_all : (n : ℕ) (xs : List String) → length xs ≤ n → drop n xs ≡ []
drop_all zero [] h = refl
drop_all zero (x ∷ xs) h = absurd (omega arith)
drop_all (suc n) [] h = refl
drop_all (suc n) (x ∷ xs) h = drop_all n xs (omega arith)

pub drop-at_slot :
    (n : ℕ) (xs : List String) → n < length xs → drop n xs ≡ at_slot xs n ∷ drop (suc n) xs
unfolding at_slot
drop-at_slot n [] h = absurd (omega arith)
drop-at_slot zero (x ∷ xs) h = refl
drop-at_slot (suc n) (x ∷ xs) h = drop-at_slot n xs (omega arith)

pub member-append :
    (k : String) (xs ys : List String) → member k (xs ++ ys) ≡ (member k xs || member k ys)
member-append k [] ys = refl
member-append k (x ∷ xs) ys = ground (arith, member-append k xs ys)

pub Distinct-push :
    (xs : List String) (v : String) → member v xs ≡ false → Distinct xs → Distinct (xs ++ v ∷ [])
Distinct-push [] v m d = (refl, tt)
Distinct-push (x ∷ xs) v m d = (
  ground (arith, member-append x xs (v ∷ []), eq_iff x v, eq_iff v x),
  Distinct-push xs v (ground arith) d.1,
)
