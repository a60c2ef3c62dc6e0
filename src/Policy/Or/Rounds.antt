-- ===== src/Policy/Or/Rounds.antt =====
-- Each round of the loop in `computePolicyORData` keeps the invariant and gets nearer to the end.
use secboot.Prelude.{
  ℕ, ◌+◌, ◌-◌, ◌^◌, ◌<◌, ◌≡◌, ap, ◌∙◌, sym, ◌≢◌, inl, inr, List, Bool-cases, ◌==◌, length,
  get_elem?, drop, length-drop, get_elem?-lt, arith,
}
use native.Mathlib.Decide.{dec_lt}
use secboot.Tpm.{Alg, Digest, TrialPolicies}
use secboot.Policy.Or.{
  PolicyOrDataTree, OrState, chunk, append_node, consume, close_level, link_level, parent_offset,
}
use secboot.Policy.Or.Links.{length-link_level, get_elem?-link_level_out, get_elem?-link_level_in}
use secboot.Policy.Or.Invariant.{
  Feeds, IsLinked, produced, length-produced, length-append_node, parents-append, level-append,
  chunk-cases,
}

-- Linking a level keeps which node holds a digest, once nothing is pending.
Feeds-link_level :
    (nodes : PolicyOrDataTree) (r cur p : ℕ) (d : Digest) (left pending : List Digest)
    → length nodes ≡ cur + r
    → length left ≡ 0
    → Feeds nodes left p d
    → Feeds (link_level r 0 r cur nodes) pending p d
Feeds-link_level nodes r cur p d left pending len none_left (inr (k, _, has)) =
    absurd (omega (arith, get_elem?-lt left k has))
Feeds-link_level nodes r cur p d left pending len none_left (inl (target, k, at, has)) =
    elim (dec_lt p cur) [
      | yes before ↦
          inl (target, k, get_elem?-link_level_out r 0 r cur nodes p (inl (omega arith)) ∙ at, has)
      | no behind ↦
          let place : p ≡ cur + (p - cur) = omega arith in
          inl (
            record target { next = parent_offset r (p - cur) },
            k,
            ap (get_elem? (link_level r 0 r cur nodes)) place
                ∙ get_elem?-link_level_in r 0 r cur nodes (p - cur) (omega arith)
                    (omega (arith, get_elem?-lt nodes p at))
                    (ap (get_elem? nodes) (sym place) ∙ at),
            has,
          )
    ]

module _ (t : TrialPolicies) (alg : Alg) (s : OrState) (v : IsLinked t alg s) where
  -- The last node of a level: the level's nodes get their parents' offsets.
  close_level-IsLinked :
      length (drop (chunk s.digests) s.digests) ≡ 0
      → IsLinked t alg (close_level (append_node s) (produced t alg s))
  unfolding close_level
  close_level-IsLinked none_left = record {
    counted = length-link_level r 0 r s.cur_node nodes ∙ omega (arith, total);
    parents = λ i h. elim (dec_lt i s.cur_node) [
      | yes old ↦
          let (node, at, up, feeds) = parents-append t alg s v i old in
          (
            node,
            get_elem?-link_level_out r 0 r s.cur_node nodes i (inl (omega arith)) ∙ at,
            up,
            Feeds-link_level nodes r s.cur_node _ _ _ _ total none_left feeds,
          )
      | no new ↦
          let m : ℕ = i - s.cur_node in
          let place : i ≡ s.cur_node + m = omega arith in
          let (node, at, has) = level-append t alg s v m (omega arith) in
          let below : r < 2 ^ 32 = omega (arith, v.fits, v.more, length-produced t alg s) in
          (
            record node { next = parent_offset r m },
            ap (get_elem? (link_level r 0 r s.cur_node nodes)) place
                ∙ get_elem?-link_level_in r 0 r s.cur_node nodes m (omega arith) (omega arith) at,
            omega arith,
            inr (m, omega (arith, length-link_level r 0 r s.cur_node nodes, total), has),
          )
    ];
    level = λ i h. absurd (omega arith);
    more = omega (arith, length-produced t alg s);
    fits = omega (arith, v.fits, v.more, length-produced t alg s);
  }
    where
      r : ℕ
      r = length (produced t alg s)

      nodes : PolicyOrDataTree
      nodes = (append_node s).nodes

      total : length nodes ≡ s.cur_node + r
      total = omega (arith, v.counted, length-append_node t alg s, length-produced t alg s)

  -- Digests are left for a sibling node.
  sibling-IsLinked :
      length (drop (chunk s.digests) s.digests) ≢ 0
      → IsLinked t alg (record (append_node s) {
        next_digests = produced t alg s;
        digests = drop (chunk s.digests) s.digests;
      })
  sibling-IsLinked left = record {
    counted = omega (arith, v.counted, length-append_node t alg s, length-produced t alg s);
    parents = parents-append t alg s v;
    level = level-append t alg s v;
    more = omega arith;
    fits = omega (
      arith,
      v.fits,
      length-produced t alg s,
      length-drop (chunk s.digests) s.digests,
      chunk-cases s.digests,
    );
  }

  pub consume-IsLinked : IsLinked t alg (consume t alg (append_node s))
  unfolding consume
  consume-IsLinked = elim (Bool-cases (length (drop (chunk s.digests) s.digests) == 0)) [
    | inl e ↦ rw e (close_level-IsLinked (ground arith))
    | inr e ↦ rw e (sibling-IsLinked (ground arith))
  ]
