-- ===== src/Rbt/Keys.antt =====
-- rbt_delete_key: the keys of the tree without one.
use balrog_os.Prelude.{
  ℕ, ◌+◌, ◌<◌, ◌≡◌, refl, Bool, true, false, ap, sym, ◌∙◌, arith, ◌++◌, ◌∷◌, [], List, length, none,
  some, none-some, ◌==◌, if◌then◌else◌, Option-cases, Bool-cases, inl, inr,
}
use balrog_os.Rbt.{Rbt}
use balrog_os.Rbt.Fixup.{IsRbt}
use balrog_os.Rbt.Order.{lookup, Below}
use balrog_os.Rbt.Search.{rbt_search-lookup}
use balrog_os.Rbt.Delete.{two_children, hand_on, rbt_delete-Deletes}
use balrog_os.Rbt.Remove.{rbt_delete, rbt_delete_key}

abbrev pub keys_of : List (ℕ × ℕ) → List ℕ
keys_of [] = []
keys_of (e ∷ es) = e.1 ∷ keys_of es

abbrev pub without : ℕ → List ℕ → List ℕ
without key [] = []
without key (k ∷ ks) = if k == key then ks else k ∷ without key ks

keys-append : (xs ys : List (ℕ × ℕ)) → keys_of (xs ++ ys) ≡ keys_of xs ++ keys_of ys
keys-append [] ys = refl
keys-append (x ∷ xs) ys = ap (λ (z : List ℕ). x.1 ∷ z) (keys-append xs ys)

keys-hand_on : (b : Bool) (x : ℕ) (es : List (ℕ × ℕ)) → keys_of (hand_on b x es) ≡ keys_of es
keys-hand_on false x es = refl
keys-hand_on true x [] = refl
keys-hand_on true x (e ∷ es) = refl

without-key :
    (key : ℕ) (xs : List (ℕ × ℕ)) (ys : List ℕ)
    → Below key xs
    → without key (keys_of xs ++ (key ∷ ys)) ≡ keys_of xs ++ ys
without-key key [] ys low = ground arith
without-key key (x ∷ xs) ys low =
    let lt : x.1 < key = low.0 in
    let ne : (x.1 == key) ≡ false = ground arith in
    rw ne (ap (λ (z : List ℕ). x.1 ∷ z) (without-key key xs ys (low.1)))

without-none :
    (key : ℕ) (es : List (ℕ × ℕ)) → lookup key es ≡ none → without key (keys_of es) ≡ keys_of es
without-none key [] e = refl
without-none key (x ∷ xs) e = elim (Bool-cases (x.1 == key)) [
  | inl is ↦ absurd (none-some (sym (rw is at e)))
  | inr is ↦ rw is (ap (λ (z : List ℕ). x.1 ∷ z) (without-none key xs (rw is at e)))
]

delete_null : (n : ℕ) (t : Rbt) → rbt_delete n t 0 ≡ some t
unfolding rbt_delete
delete_null n t = refl

-- On a red-black tree, with four units of fuel more than it has nodes, rbt_delete_key of a 64-bit
-- key returns, and leaves a red-black tree with a black root whose keys are those before, in their
-- order, without the given one.
pub rbt_delete_key-keys :
    (n : ℕ) (t : Rbt) (key : ℕ) (es : List (ℕ × ℕ))
    → IsRbt t es
    → length es + 3 < n
    → key < 18446744073709551616
    → (done : Rbt) × (es' : List (ℕ × ℕ)) × (rbt_delete_key n t key ≡ some done)
      × IsRbt done es'
      × (keys_of es' ≡ without key (keys_of es))
unfolding rbt_delete_key
rbt_delete_key-keys n t key es rbt fuel fits =
    let found = rbt_search-lookup n t key es rbt (omega arith) fits in
    elim (Option-cases (lookup key es)) [
      | inl e ↦
          (t, es, rw (found, e, rbt_delete_key) (delete_null n t), rbt, sym (without-none key es e))
      | inr (x, e) ↦
          let d = rbt_delete-Deletes n t key x es rbt fuel fits e in
          let tail = hand_on (two_children t.nodes x) x d.back in
          (
            d.done,
            d.front ++ tail,
            rw (found, e, rbt_delete_key) d.runs,
            d.holds,
            keys-append d.front tail
                ∙ (ap (λ (z : List ℕ). keys_of d.front ++ z)
                      (keys-hand_on (two_children t.nodes x) x d.back)
                    ∙ (sym (without-key key d.front (keys_of d.back) d.smaller)
                        ∙ sym (
                            ap (λ (z : List (ℕ × ℕ)). without key (keys_of z)) d.split
                            ∙ ap (without key) (keys-append d.front ((x, key) ∷ d.back))))),
          )
    ]
