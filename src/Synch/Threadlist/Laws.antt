-- ===== src/Synch/Threadlist/Laws.antt =====
-- A thread list of kern/thread/threadlist.c stands for a list of threads; each operation of the file
-- against its list counterpart.
use os.Base.{
  ◌-◌, ℕ, ◌+◌, ◌%◌, ◌^◌, ◌<◌, ◌≡◌, refl, none, some, List, [], ◌∷◌, ◌++◌, length, length-append, ok,
  arith,
}
use os.Synch.Threads.{NotIn}
use os.Synch.Threadlist.{
  remove_first, remove_last, Threadlist, threadlist_removenode, tl_head, tl_tail, count_up,
  count_down, threadlist_addhead, threadlist_addtail, threadlist_insertafter,
  threadlist_insertbefore, threadlist_remove, remove_end, threadlist_remhead, threadlist_remtail,
}
use os.Synch.Threadlist.Links.{
  Links, Links-split, Distinct, last_of, NotIn-right, with_node, without_node, last_apart,
  Links-insert, Links-remove, insert_at_place, remove_at_place,
}
use os.Synch.Threadlist.Spine.{
  spine, IsList, first_of, others_of, first_others, spine-append, Distinct-insert, Distinct-erase,
  last-tail, Links-count, addhead_of, addtail_of, last_of-nil, first_of-nil, out_tail,
}

module _ (s : Threadlist) (xs : List ℕ) (a : ℕ) (ys : List ℕ) where
  abbrev pub inserted : Threadlist
  inserted = count_up (with_node s tl_head xs a (first_of ys) (others_of ys))

  abbrev pub removed : Threadlist
  removed = count_down (without_node s tl_head xs a (first_of ys) (others_of ys))

  -- A list of fewer than 2^32 - 1 threads, at any place of it, and a thread that is not on it. Inserting
  -- the thread after the node before the place and before the node behind it succeed with the same
  -- result, the list with the thread at that place; so do threadlist_addhead for the first place and
  -- threadlist_addtail for the last.
  pub insert-IsList :
      IsList s (xs ++ ys)
      → NotIn a (tl_head ∷ spine (xs ++ ys))
      → length (xs ++ ys) + 1 < 2 ^ 32
      → IsList inserted (xs ++ a ∷ ys)
        × (threadlist_insertafter s (last_of tl_head xs) a ≡ ok inserted)
        × (threadlist_insertbefore s a (first_of ys) ≡ ok inserted)
        × (xs ≡ [] → threadlist_addhead s a ≡ ok inserted)
        × (ys ≡ [] → threadlist_addtail s a ≡ ok inserted)
  unfolding threadlist_insertafter threadlist_insertbefore
  insert-IsList il out small =
      let d : Distinct (tl_head ∷ xs ++ first_of ys ∷ others_of ys) =
        rw (spine-append xs ys) at il.distinct in
      let o : NotIn a (tl_head ∷ xs ++ first_of ys ∷ others_of ys) =
        rw (spine-append xs ys) at out in
      let l : Links s tl_head (xs ++ first_of ys ∷ others_of ys) =
        rw (spine-append xs ys) at il.links in
      let (before, after) = insert_at_place s tl_head xs a (first_of ys) (others_of ys) d o l in
      let apart = last_apart s tl_head xs a (first_of ys) (others_of ys) d o in
      (
        record {
          links =
              rw (spine-append xs (a ∷ ys), first_others ys)
                (Links-count (with_node s tl_head xs a (first_of ys) (others_of ys))
                  ((s.tl_count + 1) % 2 ^ 32) tl_head (xs ++ a ∷ first_of ys ∷ others_of ys)
                  (Links-insert s tl_head xs a (first_of ys) (others_of ys) d o l));
          head_end = ground (
            arith,
            il.head_end,
            o.0,
            (NotIn-right tl_head xs (first_of ys ∷ others_of ys) d.0).0,
          );
          tail_end = ground (
            arith,
            il.tail_end,
            last-tail xs ys d,
            (NotIn-right a (xs ++ ys) (tl_tail ∷ []) out.1).0,
          );
          distinct =
              rw (spine-append xs (a ∷ ys), first_others ys)
                (Distinct-insert (tl_head ∷ xs) a (first_of ys ∷ others_of ys) o d);
          counted = omega (arith, il.counted, length-append xs ys, length-append xs (a ∷ ys));
        },
        rw after refl,
        rw before refl,
        λ e. addhead_of s _ (last_of tl_head xs) a (last_of-nil xs e) after,
        λ e. addtail_of s _ (first_of ys) a (first_of-nil ys e) before,
      )

-- The two ends, by the node there.
remhead_of :
    (s w : Threadlist) (a b : ℕ)
    → s.tln_next tl_head ≡ some a
    → s.tln_next a ≡ some b
    → threadlist_removenode a s ≡ ok w
    → threadlist_remhead s ≡ ok (some a, count_down w)
unfolding threadlist_remhead remove_first remove_end
remhead_of s w a b e e' h = rw (e, e', h) refl

remtail_of :
    (s w : Threadlist) (a b : ℕ)
    → s.tln_prev tl_tail ≡ some a
    → s.tln_prev a ≡ some b
    → threadlist_removenode a s ≡ ok w
    → threadlist_remtail s ≡ ok (some a, count_down w)
unfolding threadlist_remtail remove_last remove_end
remtail_of s w a b e e' h = rw (e, e', h) refl

module _ (s : Threadlist) (xs : List ℕ) (a : ℕ) (ys : List ℕ) where
  -- A list with thread `a` at any place of it, of fewer than 2^32 threads. threadlist_remove takes it
  -- out and leaves the others in order, and the node of `a` is linked to nothing; if it was the first,
  -- threadlist_remhead returns it and does the same, and if it was the last threadlist_remtail.
  pub remove-IsList :
      IsList s (xs ++ a ∷ ys)
      → length (xs ++ a ∷ ys) < 2 ^ 32
      → IsList (removed s xs a ys) (xs ++ ys)
        × (threadlist_remove s a ≡ ok (removed s xs a ys))
        × ((removed s xs a ys).tln_next a ≡ none)
        × ((removed s xs a ys).tln_prev a ≡ none)
        × (xs ≡ [] → threadlist_remhead s ≡ ok (some a, removed s xs a ys))
        × (ys ≡ [] → threadlist_remtail s ≡ ok (some a, removed s xs a ys))
  unfolding threadlist_remove
  remove-IsList il small =
      let dd : Distinct (tl_head ∷ xs ++ a ∷ first_of ys ∷ others_of ys) =
        rw (spine-append xs (a ∷ ys), first_others ys) at il.distinct in
      let l : Links s tl_head (xs ++ a ∷ first_of ys ∷ others_of ys) =
        rw (spine-append xs (a ∷ ys), first_others ys) at il.links in
      let (d, o) = Distinct-erase (tl_head ∷ xs) a (first_of ys ∷ others_of ys) dd in
      let done = remove_at_place s tl_head xs a (first_of ys) (others_of ys) d o l in
      let here = (Links-split s tl_head xs (a ∷ first_of ys ∷ others_of ys) l).1 in
      (
        record {
          links = rw (spine-append xs ys) (
              Links-count (without_node s tl_head xs a (first_of ys) (others_of ys))
                ((s.tl_count + 2 ^ 32 - 1) % 2 ^ 32) tl_head (xs ++ first_of ys ∷ others_of ys)
                (Links-remove s tl_head xs a (first_of ys) (others_of ys) d o l));
          head_end = ground (
            arith,
            il.head_end,
            o.0,
            (NotIn-right tl_head xs (first_of ys ∷ others_of ys) d.0).0,
          );
          tail_end = ground (arith, il.tail_end, last-tail xs ys d, out_tail xs a ys o);
          distinct = rw (spine-append xs ys) d;
          counted =
              omega (arith, il.counted, small, length-append xs ys, length-append xs (a ∷ ys));
        },
        rw done refl,
        ground arith,
        ground arith,
        λ e. remhead_of s _ a (first_of ys) (rw (last_of-nil xs e) at here.0) here.2.0 done,
        λ e. remtail_of s _ a (last_of tl_head xs) (rw (first_of-nil ys e) at here.2.1) here.1 done,
      )

-- An empty list has nothing to take from either end.
pub rem_empty :
    (s : Threadlist)
    → IsList s []
    → (threadlist_remhead s ≡ ok (none, s)) × (threadlist_remtail s ≡ ok (none, s))
unfolding threadlist_remhead threadlist_remtail remove_first remove_last remove_end
rem_empty s il = (rw (il.links.0, il.tail_end) refl, rw (il.links.1, il.head_end) refl)
