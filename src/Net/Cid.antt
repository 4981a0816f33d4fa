-- ===== src/Net/Cid.antt =====
-- src/net/mod.rs: `CID`, the numbers that identify a connection and the connections inside it.
pub mod Text
use ruci.Prelude.{
  ℕ, suc, ◌%◌, ◌^◌, ◌≡◌, ◌≢◌, ap, refl, Bool, true, false, List, [], ◌∷◌, ◌++◌, ◌==◌,
}

pub record Cid : Type 0 where
  pub id_list : List ℕ

unfoldable pub new : ℕ → Cid
new n = record { id_list = n ∷ [] }

abbrev pub default : Cid
default = record { id_list = [] }

zero_list : List ℕ → Bool
zero_list [] = true
zero_list (n ∷ []) = n == 0
zero_list (_ ∷ _ ∷ _) = false

unfoldable pub is_zero : Cid → Bool
unfolding zero_list
is_zero c = zero_list c.id_list

unfoldable pub push_num : Cid → ℕ → Cid
push_num c n = record { id_list = c.id_list ++ n ∷ [] }

-- `SmallVec::pop` on a list that begins with `n`: what is left, and the last number.
split_last : ℕ → List ℕ → List ℕ × ℕ
split_last n [] = ([], n)
split_last n (m ∷ ns) = let (rest, last) = split_last m ns in (n ∷ rest, last)

-- An identifier whose only number was taken becomes 0; one number left is put back by itself.
settle : List ℕ → Cid
unfolding new
settle [] = new 0
settle (l ∷ []) = new l
settle (l ∷ k ∷ ks) = record { id_list = l ∷ k ∷ ks }

pop_list : List ℕ → Cid × Cid
unfolding split_last settle new
pop_list [] = (default, new 0)
pop_list (n ∷ ns) = let (rest, last) = split_last n ns in (settle rest, new last)

-- The identifier as `pop` leaves it, and what `pop` returns.
unfoldable pub pop : Cid → Cid × Cid
unfolding pop_list
pop c = pop_list c.id_list

unfoldable pub clone_pop : Cid → Cid
clone_pop c = (pop c).1

split_last-concat : (n m : ℕ) (ns : List ℕ) → split_last n (ns ++ m ∷ []) ≡ (n ∷ ns, m)
unfolding split_last
split_last-concat n m [] = refl
split_last-concat n m (k ∷ ns) = ap (λ r. (n ∷ r.0, r.1)) (split_last-concat k m ns)

-- Where the number of a new connection comes from: a recorder, whose atomic counter, a u32, was raised
-- that often before, or the random number that was drawn.
pub data IdSource : Type 0 where
  recorded random : ℕ → IdSource

-- The counter is raised, and the number that it has then is taken.
unfoldable pub new_id_num : IdSource → ℕ
new_id_num (recorded made) = suc made % 2 ^ 32
new_id_num (random n) = n

unfoldable pub new_by_ogtr : IdSource → Cid
unfolding new_id_num
new_by_ogtr ogtr = new (new_id_num ogtr)

unfoldable pub clone_push : Cid → IdSource → Cid
unfolding push_num new_id_num
clone_push cid ogtr = push_num cid (new_id_num ogtr)

settle-cons : (n : ℕ) (ns : List ℕ) → settle (n ∷ ns) ≡ record { id_list = n ∷ ns }
unfolding settle new
settle-cons n [] = refl
settle-cons n (m ∷ ns) = refl

push_pop : (ids : List ℕ) (n : ℕ) → pop_list (ids ++ n ∷ []) ≡ (settle ids, new n)
unfolding pop_list split_last
push_pop [] n = refl
push_pop (k ∷ ids) n = ap (λ r. (settle r.0, new r.1)) (split_last-concat k n ids)

-- On an identifier with a number `pop` undoes `push_num`: it returns the number and leaves the
-- identifier as it was.
pub pop-push_num : (c : Cid) (n : ℕ) → c.id_list ≢ [] → pop (push_num c n) ≡ (c, new n)
unfolding pop push_num
pop-push_num c n h = rw push_pop (ap (λ i. (i, new n)) (settle_ne c.id_list h))
  where
    settle_ne : (ids : List ℕ) → ids ≢ [] → settle ids ≡ record { id_list = ids }
    settle_ne [] h = absurd (h refl)
    settle_ne (k ∷ ids) h = settle-cons k ids
