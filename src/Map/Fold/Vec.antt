-- ===== src/Map/Fold/Vec.antt =====
-- `fold` (src/map/fold.rs) over a static list of maps.
use ruci.Prelude.{
  ℕ, zero, suc, ◌<◌, ◌≡◌, refl, sym, ap, ◌∙◌, ◌≢◌, ◌⊎◌, inl, inr, true, false, some, none, Option,
  List, [], ◌∷◌, ◌++◌, arith, length, Bool-cases, map,
}
use ruci.Utf8.{Text}
use ruci.Net.Cid.{Cid}
use ruci.Map.{MapResult, is_none_or_generator}
use ruci.Map.Ext.{ProxyBehavior, MapBox, get_chain_tag}
use ruci.Map.Fold.Rounds.{loop_end, loop_stop, loop_next}
use ruci.Map.Fold.{
  Acc, is_some, called, params_of, id_or, FoldParams, FoldResult, vec_iter, or_tag, stops, added,
  new, next_map, loop, result, ended, fold,
}

-- The first tag that is not empty.
unfoldable pub first_tag : List Text → Text
unfolding or_tag
first_tag [] = []
first_tag (t ∷ ts) = or_tag t (first_tag ts)

or_tag_assoc : (t u v : Text) → or_tag (or_tag t u) v ≡ or_tag t (or_tag u v)
unfolding or_tag
or_tag_assoc [] u v = refl
or_tag_assoc (c ∷ cs) u v = refl

or_tag_nil : (t : Text) → or_tag t [] ≡ t
unfolding or_tag
or_tag_nil [] = refl
or_tag_nil (c ∷ cs) = refl

-- The identifier behind the last map: what it gave, or else the one of the whole fold.
unfoldable pub final_id : Cid → Option Cid → Cid
final_id cid (some i) = i
final_id cid none = cid

module _ {C U D E : Type 0} where
  -- The maps `ms` called one behind the other, each with what the one before answered, under the
  -- identifier that this gave or else `cid`, and with the data of all before it: the last answer, and
  -- the data of the start and of each.
  unfoldable pub run_through :
      Cid
      → ProxyBehavior
      → List (MapBox C U D E)
      → MapResult C U D E
      → List (Option D)
      → MapResult C U D E × List (Option D)
  run_through cid beh [] r ds = (r, ds)
  run_through cid beh (m ∷ ms) r ds =
      let answer =
        m.maps (final_id cid r.new_id) beh (record { a = r.a; b = r.b; c = r.c; d = ds }) in
      run_through cid beh ms answer (ds ++ answer.d ∷ [])

  -- A map answered with a stream, and without an error.
  abbrev pub GoesOn : MapResult C U D E → Type 0
  GoesOn r = (is_none_or_generator r.c ≡ false) × (r.e ≡ none)

  goes_on : (r : MapResult C U D E) → stops r ≡ false → GoesOn r
  unfolding stops is_some
  goes_on r h = ground arith

  -- Run from `s`, each map of the list but the last goes on.
  unfoldable pub IsUnbroken : Cid → ProxyBehavior → List (MapBox C U D E) → Acc C U D E → Type 0
  IsUnbroken cid beh [] s = Unit
  IsUnbroken cid beh (m ∷ []) s = Unit
  IsUnbroken cid beh (m ∷ k ∷ ms) s =
      GoesOn (added cid beh m s).last_r × IsUnbroken cid beh (k ∷ ms) (added cid beh m s)

  IsUnbroken-cons :
      (cid : Cid) (beh : ProxyBehavior) (m : MapBox C U D E) (ms : List (MapBox C U D E))
      (s : Acc C U D E)
      → stops (added cid beh m s).last_r ≡ false
      → IsUnbroken cid beh ms (added cid beh m s)
      → IsUnbroken cid beh (m ∷ ms) s
  unfolding IsUnbroken
  IsUnbroken-cons cid beh m [] s e h = tt
  IsUnbroken-cons cid beh m (k ∷ ms) s e h = (goes_on (added cid beh m s).last_r e, h)

  -- What holds when the loop began with the maps `ms` at `s`, and ended with `left` at `t`.
  pub record Folded (cid : Cid) (beh : ProxyBehavior) (ms : List (MapBox C U D E)) (s : Acc C U D E)
      (left : List (MapBox C U D E)) (t : Acc C U D E) : Type 0 where
    pub ran : List (MapBox C U D E)
    pub unbroken : IsUnbroken cid beh ran s
    pub split : ms ≡ ran ++ left
    pub answers :
        (t.last_r, t.calculated_output_vec)
        ≡ run_through cid beh ran s.last_r s.calculated_output_vec
    pub tagged : t.tag ≡ or_tag s.tag (first_tag (map get_chain_tag ran))
    pub why : (left ≡ []) ⊎ (stops t.last_r ≡ true)

  abbrev pub Ends : ℕ → Cid → ProxyBehavior → List (MapBox C U D E) → Acc C U D E → Type 0
  Ends n cid beh ms s =
      (left : List (MapBox C U D E)) × (t : Acc C U D E) × (loop n vec_iter cid beh ms s
        ≡ some (left, t))
      × Folded cid beh ms s left t

  Folded-here : (cid : Cid) (beh : ProxyBehavior) (s : Acc C U D E) → Folded cid beh [] s [] s
  unfolding first_tag IsUnbroken run_through
  Folded-here cid beh s = record {
    ran = [];
    unbroken = tt;
    split = refl;
    answers = refl;
    tagged = sym (or_tag_nil s.tag);
    why = inl refl;
  }

  Folded-cons :
      (cid : Cid) (beh : ProxyBehavior) (m : MapBox C U D E) (ms left : List (MapBox C U D E))
      (s t : Acc C U D E)
      → stops (added cid beh m s).last_r ≡ false
      → Folded cid beh ms (added cid beh m s) left t
      → Folded cid beh (m ∷ ms) s left t
  unfolding added called params_of id_or final_id first_tag run_through
  Folded-cons cid beh m ms left s t e f = record {
    ran = m ∷ f.ran;
    unbroken = IsUnbroken-cons cid beh m f.ran s e f.unbroken;
    split = ap (◌∷◌ m) f.split;
    answers = f.answers;
    tagged = f.tagged ∙ or_tag_assoc s.tag (get_chain_tag m) _;
    why = f.why;
  }

  Folded-stop :
      (cid : Cid) (beh : ProxyBehavior) (m : MapBox C U D E) (ms : List (MapBox C U D E))
      (s : Acc C U D E)
      → stops (added cid beh m s).last_r ≡ true
      → Folded cid beh (m ∷ ms) s ms (added cid beh m s)
  unfolding added called params_of id_or final_id first_tag IsUnbroken run_through
  Folded-stop cid beh m ms s h = record {
    ran = m ∷ [];
    unbroken = tt;
    split = refl;
    answers = refl;
    tagged = ap (or_tag s.tag) (sym (or_tag_nil (get_chain_tag m)));
    why = inr h;
  }

  pub next_vec :
      (cid : Cid) (m : MapBox C U D E) (ms : List (MapBox C U D E)) (s : Acc C U D E)
      → next_map vec_iter cid s (m ∷ ms) ≡ (some m, ms)
  unfolding next_map vec_iter
  next_vec cid m ms s = refl

  -- Over one map the loop is one call.
  pub loop_one :
      (n : ℕ) (cid : Cid) (beh : ProxyBehavior) (m : MapBox C U D E) (s : Acc C U D E)
      → loop (suc (suc n)) vec_iter cid beh (m ∷ []) s ≡ some ([], added cid beh m s)
  unfolding vec_iter
  loop_one n cid beh m s = elim (Bool-cases (stops (added cid beh m s).last_r)) [
    | inl k ↦ loop_stop (suc n) vec_iter cid beh (m ∷ []) [] m s (next_vec cid m [] s) k
    | inr k ↦
        loop_next (suc n) vec_iter cid beh (m ∷ []) [] m s (next_vec cid m [] s) k
        ∙ loop_end n vec_iter cid beh [] [] (added cid beh m s) (unfold next_map in refl)
  ]

  pub loop-Folded :
      (n : ℕ) (cid : Cid) (beh : ProxyBehavior) (ms : List (MapBox C U D E)) (s : Acc C U D E)
      → length ms < n
      → Ends n cid beh ms s
  unfolding vec_iter
  loop-Folded zero cid beh ms s h = absurd (omega arith)
  loop-Folded (suc n) cid beh [] s h =
      ([], s, loop_end n vec_iter cid beh [] [] s (unfold next_map in refl), Folded-here cid beh s)
  loop-Folded (suc n) cid beh (m ∷ ms) s h = elim (Bool-cases (stops t.last_r)) [
    | inl e ↦ (
      ms,
      t,
      loop_stop n vec_iter cid beh (m ∷ ms) ms m s (next_vec cid m ms s) e,
      Folded-stop cid beh m ms s e,
    )
    | inr e ↦
        let rest = loop-Folded n cid beh ms t (omega arith) in
        (
          rest.0,
          rest.1,
          loop_next n vec_iter cid beh (m ∷ ms) ms m s (next_vec cid m ms s) e ∙ rest.2,
          Folded-cons cid beh m ms rest.0 s rest.1 e rest.3,
        )
  ]
    where
      t : Acc C U D E
      t = added cid beh m s

  why_stopped :
      (r : MapResult C U D E) → stops r ≡ true → (is_none_or_generator r.c ≡ true) ⊎ (r.e ≢ none)
  unfolding stops is_some
  why_stopped r h = ground arith

  -- With more fuel than maps the fold of a static list ends. The maps that ran are the first ones, and
  -- each but the last gave a stream and no error. Its result is the answer of the last of them when
  -- they are called one behind the other, each with the address, the buffer and the stream of the one
  -- before and with the data of all before it; with it come the data of the start and of each of them,
  -- the maps that are left, and the first tag that is not empty, of the one that it was given and
  -- theirs; its identifier is the one that the last answer gave, or else the given one; and maps are
  -- left only if the last one gave no stream, a generator or an error.
  pub fold_vec :
      (n : ℕ) (p : FoldParams C U D E (List (MapBox C U D E)))
      → length p.maps < n
      → (r : FoldResult C U D E (List (MapBox C U D E))) × (ran : List (MapBox C U D E))
        × (last : MapResult C U D E) × (fold n vec_iter p ≡ some r)
        × (p.maps ≡ ran ++ r.left_maps_iter)
        × IsUnbroken p.cid p.behavior ran (new p)
        × ((last, r.d) ≡ run_through p.cid p.behavior ran p.initial_state (p.initial_state.d ∷ []))
        × (((r.a ≡ last.a) × (r.b ≡ last.b)) × ((r.c ≡ last.c) × (r.e ≡ last.e)))
        × (r.no_timeout ≡ last.no_timeout)
        × (r.id ≡ final_id p.cid last.new_id)
        × (r.chain_tag ≡ first_tag (p.chain_tag ∷ map get_chain_tag ran))
        × ((r.left_maps_iter ≡ []) ⊎ ((is_none_or_generator r.c ≡ true) ⊎ (r.e ≢ none)))
  unfolding fold ended new result id_or final_id first_tag
  fold_vec n p h =
      let (left, t, e, f) = loop-Folded n p.cid p.behavior p.maps (new p) h in
      (
        result p.cid (left, t),
        f.ran,
        t.last_r,
        ap (ended p.cid) e,
        f.split,
        f.unbroken,
        f.answers,
        ((refl, refl), (refl, refl)),
        refl,
        refl,
        f.tagged,
        elim f.why [ inl k ↦ inl k | inr k ↦ inr (why_stopped t.last_r k) ],
      )
