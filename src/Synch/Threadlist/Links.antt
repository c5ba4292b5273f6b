-- ===== src/Synch/Threadlist/Links.antt =====
-- Runs of nodes that are linked both ways, and what an insertion and a removal in the middle do to them.
use os.Base.{
  ℕ, ◌≡◌, ◌≢◌, refl, ==_iff, ==-false, sym, ◌∙◌, none, some, List, [], ◌∷◌, ◌++◌, update, ok, arith,
}
use os.Synch.Threads.{NotIn}
use os.Synch.Threadlist.{
  Threadlist, link_in, threadlist_insertafternode, threadlist_insertbeforenode,
  threadlist_removenode,
}

-- Each node of `p ∷ xs` has the next one as its next and is that one's previous.
abbrev pub Links : Threadlist → ℕ → List ℕ → Type 0
Links s p [] = Unit
Links s p (x ∷ xs) = (s.tln_next p ≡ some x) × (s.tln_prev x ≡ some p) × Links s x xs

abbrev pub Distinct : List ℕ → Type 0
Distinct [] = Unit
Distinct (x ∷ xs) = NotIn x xs × Distinct xs

-- The last node of `p ∷ xs`.
unfoldable pub last_of : ℕ → List ℕ → ℕ
last_of p [] = p
last_of p (x ∷ xs) = last_of x xs

Links-append :
    (s : Threadlist) (p : ℕ) (xs ys : List ℕ)
    → Links s p xs
    → Links s (last_of p xs) ys
    → Links s p (xs ++ ys)
unfolding last_of
Links-append s p [] ys l r = r
Links-append s p (x ∷ xs) ys l r = (l.0, l.1, Links-append s x xs ys l.2 r)

pub Links-split :
    (s : Threadlist) (p : ℕ) (xs ys : List ℕ)
    → Links s p (xs ++ ys)
    → Links s p xs × Links s (last_of p xs) ys
unfolding last_of
Links-split s p [] ys l = (tt, l)
Links-split s p (x ∷ xs) ys l = let (a, b) = Links-split s x xs ys l.2 in ((l.0, l.1, a), b)

-- Outside the next of `l` and `a`, and the previous of `a` and `y`, two states agree.
record Agree (l a y : ℕ) (s s' : Threadlist) : Type 0 where
  next : (z : ℕ) → z ≢ l → z ≢ a → s'.tln_next z ≡ s.tln_next z
  prev : (z : ℕ) → z ≢ a → z ≢ y → s'.tln_prev z ≡ s.tln_prev z

not-last_of : (z x : ℕ) (xs : List ℕ) → NotIn z (x ∷ xs) → z ≢ last_of x xs
unfolding last_of
not-last_of z x [] out = out.0
not-last_of z x (x' ∷ xs) out = not-last_of z x' xs out.1

-- The run before the place, whose last node is `l`, and the run behind it.
Links-before :
    {a y : ℕ} {s s' : Threadlist} (p : ℕ) (xs : List ℕ)
    → Agree (last_of p xs) a y s s'
    → Distinct (p ∷ xs)
    → NotIn a (p ∷ xs)
    → NotIn y (p ∷ xs)
    → Links s p xs
    → Links s' p xs
unfolding last_of
Links-before p [] g d na ny l = tt
Links-before p (x ∷ xs) g d na ny l = (
  g.next p (not-last_of p x xs d.0) (λ e. na.0 (sym e)) ∙ l.0,
  g.prev x (λ e. na.1.0 (sym e)) (λ e. ny.1.0 (sym e)) ∙ l.1,
  Links-before x xs g d.1 na.1 ny.1 l.2,
)

Links-behind :
    {l a y : ℕ} {s s' : Threadlist} (p : ℕ) (zs : List ℕ)
    → Agree l a y s s'
    → NotIn l (p ∷ zs)
    → NotIn a (p ∷ zs)
    → NotIn y zs
    → Links s p zs
    → Links s' p zs
Links-behind p [] g nl na ny k = tt
Links-behind p (x ∷ xs) g nl na ny k = (
  g.next p (λ e. nl.0 (sym e)) (λ e. na.0 (sym e)) ∙ k.0,
  g.prev x (λ e. na.1.0 (sym e)) (λ e. ny.0 (sym e)) ∙ k.1,
  Links-behind x xs g nl.1 na.1 ny.1 k.2,
)

pub NotIn-left : (z : ℕ) (xs ys : List ℕ) → NotIn z (xs ++ ys) → NotIn z xs
NotIn-left z [] ys out = tt
NotIn-left z (x ∷ xs) ys out = (out.0, NotIn-left z xs ys out.1)

pub NotIn-right : (z : ℕ) (xs ys : List ℕ) → NotIn z (xs ++ ys) → NotIn z ys
NotIn-right z [] ys out = out
NotIn-right z (x ∷ xs) ys out = NotIn-right z xs ys out.1

-- What it means for a run and the run behind it to be distinct together.
Distinct-left : (xs ys : List ℕ) → Distinct (xs ++ ys) → Distinct xs
Distinct-left [] ys d = tt
Distinct-left (x ∷ xs) ys d = (NotIn-left x xs ys d.0, Distinct-left xs ys d.1)

Distinct-right : (xs ys : List ℕ) → Distinct (xs ++ ys) → Distinct ys
Distinct-right [] ys d = d
Distinct-right (x ∷ xs) ys d = Distinct-right xs ys d.1

Distinct-apart : (xs : List ℕ) (y : ℕ) (zs : List ℕ) → Distinct (xs ++ y ∷ zs) → NotIn y xs
Distinct-apart [] y zs d = tt
Distinct-apart (x ∷ xs) y zs d =
    (λ e. (NotIn-right x xs (y ∷ zs) d.0).0 (sym e), Distinct-apart xs y zs d.1)

pub Distinct-last : (p : ℕ) (xs ys : List ℕ) → Distinct (p ∷ xs ++ ys) → NotIn (last_of p xs) ys
unfolding last_of
Distinct-last p [] ys d = d.0
Distinct-last p (x ∷ xs) ys d = Distinct-last x xs ys d.1

-- A run with a new node `a` between the last of `p ∷ xs` and `y`.
module _ (s : Threadlist) (p : ℕ) (xs : List ℕ) (a y : ℕ) (zs : List ℕ) where
  abbrev pub with_node : Threadlist
  with_node = record s {
    tln_next = update (update s.tln_next a (some y)) (last_of p xs) (some a);
    tln_prev = update (update s.tln_prev a (some (last_of p xs))) y (some a);
  }

  abbrev pub without_node : Threadlist
  without_node = record s {
    tln_next = update (update s.tln_next (last_of p xs) (some y)) a none;
    tln_prev = update (update s.tln_prev y (some (last_of p xs))) a none;
  }

  module _ (d : Distinct (p ∷ xs ++ y ∷ zs)) (out : NotIn a (p ∷ xs ++ y ∷ zs)) where
    pub last_apart : (last_of p xs ≢ a) × (last_of p xs ≢ y) × (a ≢ y)
    last_apart = (
      λ e. not-last_of a p xs (NotIn-left a (p ∷ xs) (y ∷ zs) out) (sym e),
      (Distinct-last p xs (y ∷ zs) d).0,
      (NotIn-right a (p ∷ xs) (y ∷ zs) out).0,
    )

    pub Links-insert : Links s p (xs ++ y ∷ zs) → Links with_node p (xs ++ a ∷ y ∷ zs)
    Links-insert l =
        let (before, here) = Links-split s p xs (y ∷ zs) l in
        let g : Agree (last_of p xs) a y s with_node = record {
          next = λ z n n'. ground arith;
          prev = λ z n n'. ground arith;
        } in
        let apart = last_apart in
        Links-append with_node p xs (a ∷ y ∷ zs)
          (Links-before p xs g (Distinct-left (p ∷ xs) (y ∷ zs) d)
            (NotIn-left a (p ∷ xs) (y ∷ zs) out) (Distinct-apart (p ∷ xs) y zs d) before)
          (
            ground arith,
            ground (arith, apart.2),
            (
              ground (arith, apart.0),
              ground arith,
              Links-behind y zs g (Distinct-last p xs (y ∷ zs) d)
                  (NotIn-right a (p ∷ xs) (y ∷ zs) out) (Distinct-right (p ∷ xs) (y ∷ zs) d).0
                  here.2,
            ),
          )

    pub Links-remove : Links s p (xs ++ a ∷ y ∷ zs) → Links without_node p (xs ++ y ∷ zs)
    Links-remove l =
        let (before, here) = Links-split s p xs (a ∷ y ∷ zs) l in
        let g : Agree (last_of p xs) a y s without_node = record {
          next = λ z n n'. ground arith;
          prev = λ z n n'. ground arith;
        } in
        let apart = last_apart in
        Links-append without_node p xs (y ∷ zs)
          (Links-before p xs g (Distinct-left (p ∷ xs) (y ∷ zs) d)
            (NotIn-left a (p ∷ xs) (y ∷ zs) out) (Distinct-apart (p ∷ xs) y zs d) before)
          (
            ground (arith, apart.0),
            ground (arith, apart.2),
            Links-behind y zs g (Distinct-last p xs (y ∷ zs) d)
                (NotIn-right a (p ∷ xs) (y ∷ zs) out) (Distinct-right (p ∷ xs) (y ∷ zs) d).0
                here.2.2,
          )

    -- The two insertions at that place, and the removal from it.
    pub insert_at_place :
        Links s p (xs ++ y ∷ zs)
        → (threadlist_insertbeforenode a y s ≡ ok with_node)
          × (threadlist_insertafternode (last_of p xs) a s ≡ ok with_node)
    unfolding threadlist_insertbeforenode threadlist_insertafternode link_in
    insert_at_place l =
        let (before, here) = Links-split s p xs (y ∷ zs) l in
        let apart = last_apart in
        (
          rw (here.1, (==_iff a a).1 refl, ==-false (last_of p xs) a apart.0, (==_iff a a).1 refl)
              refl,
          rw (here.0, (==_iff a a).1 refl, ==-false (last_of p xs) a apart.0, (==_iff a a).1 refl)
              refl,
        )

    pub remove_at_place : Links s p (xs ++ a ∷ y ∷ zs) → threadlist_removenode a s ≡ ok without_node
    unfolding threadlist_removenode
    remove_at_place l =
        let (before, here) = Links-split s p xs (a ∷ y ∷ zs) l in
        let apart = last_apart in
        rw (here.2.0, here.1, ==-false (last_of p xs) a apart.0, here.2.0, here.1) refl
