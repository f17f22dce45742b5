-- ===== src/Dto/Peers.antt =====
-- What `strip_peer_data` lets through: the tenant's own enrollments, and of someone else's
-- submission nothing sensitive.
use paquitobot_rag.Prelude.{
  String, ◌≡◌, refl, sym, ◌⊎◌, Bool, true, false, Option, none, some, List, [], ◌∷◌, not, ◌&&◌,
  arith, inl, inr, Bool-cases, ◌∙◌, ap, if◌then◌else◌, str_eq, str_eq_iff,
}
use paquitobot_rag.Value.{
  Value, Items, Fields, null, list, dict, nil, cons, end, field, get, pop, is_dict, member,
}
use paquitobot_rag.Value.Laws.{get-put, get-pop}
use paquitobot_rag.Value.Int.{ℤ}
use paquitobot_rag.Dto.{
  same_user, enrollment_user_id, looks_like_enrollment, sensitive_submission_fields, pop_all,
  strip_submission_value, strip_submission, strip_own_fields, strip_rest, strip_enrollments,
  strip_list, strip_items, strip_item, cons_some, strip_mapping,
}

get-pop_all :
    (ks : List String) (j : String) (f : Fields)
    → get j (pop_all ks f) ≡ (if member j ks then null else get j f)
unfolding pop_all member
get-pop_all [] j f = refl
get-pop_all (k ∷ ks) j f = ground (arith, get-pop_all ks j (pop k f), get-pop k j f)

abbrev pub is_none : {A : Type 0} → Option A → Bool
is_none none = true
is_none (some _) = false

module _ (t : ℤ) where
  get-strip_enrollments :
      (j : String) (f : Fields)
      → get j (strip_enrollments t f)
        ≡ (if str_eq "enrollments" j then strip_list t (get j f) else get j f)
  unfolding get strip_enrollments
  get-strip_enrollments j end = ground arith
  get-strip_enrollments j (field k v f) = ground (
    arith,
    str_eq_iff k j,
    str_eq_iff k "enrollments",
    str_eq_iff "enrollments" j,
    get-strip_enrollments j f,
  )

  get-strip_submission :
      (j : String) (f : Fields)
      → get j (strip_submission t f)
        ≡ (if str_eq "submission" j then strip_submission_value t (get j f) else get j f)
  unfolding strip_submission strip_submission_value is_dict
  get-strip_submission j f = ground (
    arith,
    str_eq_iff "submission" j,
    get-put "submission" j (strip_submission_value t (get "submission" f)) f,
  )

  get-strip_own_fields :
      (j : String) (f : Fields)
      → member j sensitive_submission_fields ≡ false
      → get j (strip_own_fields t f) ≡ get j f
  unfolding strip_own_fields
  get-strip_own_fields j f h = ground (arith, get-pop_all sensitive_submission_fields j f)

  -- Where the mapping is kept, a key that is not sensitive reads as the loop and the submission's
  -- step left it.
  get-strip_rest :
      (j : String) (f stripped r : Fields)
      → strip_rest t f stripped ≡ some r
      → member j sensitive_submission_fields ≡ false
      → get j r ≡ (
          if str_eq "submission" j
          then strip_submission_value t (get j stripped)
          else get j stripped)
  unfolding strip_rest
  get-strip_rest j f stripped r e h = ground (
    arith,
    get-strip_own_fields j (strip_submission t stripped) h,
    get-strip_submission j stripped,
  )

  enrollment_user_id-strip :
      (f r : Fields)
      → strip_rest t f (strip_enrollments t f) ≡ some r
      → enrollment_user_id r ≡ enrollment_user_id f
  unfolding enrollment_user_id member
  enrollment_user_id-strip f r e =
      let own : get "user_id" r ≡ get "user_id" f =
        get-strip_rest "user_id" f (strip_enrollments t f) r e refl
        ∙ get-strip_enrollments "user_id" f in
      let nested : get "user" r ≡ get "user" f =
        get-strip_rest "user" f (strip_enrollments t f) r e refl ∙ get-strip_enrollments "user" f in
      rw (own, nested)

  -- Every entry is a dict whose user is the tenant's own.
  abbrev pub IsOwn : Value → Type 0
  IsOwn (dict f) = same_user (enrollment_user_id f) t ≡ true
  IsOwn _ = ⊥

  abbrev pub AllOwn : Items → Type 0
  AllOwn nil = Unit
  AllOwn (cons v rest) = IsOwn v × AllOwn rest

  strip_item_dict :
      (f : Fields)
      → strip_item t (dict f) ≡ (
          if same_user (enrollment_user_id f) t
          then strip_rest t f (strip_enrollments t f)
          else none)
  unfolding strip_item
  strip_item_dict f = refl

  strip_item-IsOwn : (v : Value) (c : Fields) → strip_item t v ≡ some c → IsOwn (dict c)
  unfolding strip_item
  strip_item-IsOwn (dict f) c e =
      go (same_user (enrollment_user_id f) t) refl (sym (strip_item_dict f) ∙ e)
    where
      go :
          (b : Bool)
          → same_user (enrollment_user_id f) t ≡ b
          → (if b then strip_rest t f (strip_enrollments t f) else none) ≡ some c
          → IsOwn (dict c)
      go true mine kept = rw (enrollment_user_id-strip f c kept) mine
      go false other gone = cc
  strip_item-IsOwn null c e = cc
  strip_item-IsOwn _ c e = cc

  strip_items-AllOwn : (items : Items) → AllOwn (strip_items t items)
  unfolding strip_items
  strip_items-AllOwn nil = tt
  strip_items-AllOwn (cons v rest) = go (strip_item t v) refl (strip_items-AllOwn rest)
    where
      go :
          (o : Option Fields)
          → strip_item t v ≡ o
          → AllOwn (strip_items t rest)
          → AllOwn (cons_some t o (strip_items t rest))
      go none e h = h
      go (some c) e h = (strip_item-IsOwn v c e, h)

  strip_list-AllOwn : (v : Value) (kept : Items) → strip_list t v ≡ list kept → AllOwn kept
  unfolding strip_list
  strip_list-AllOwn (list items) kept e =
      let same : strip_items t items ≡ kept = cc in rw (← same) (strip_items-AllOwn items)
  strip_list-AllOwn null kept e = cc
  strip_list-AllOwn _ kept e = cc

  -- In a mapping that is kept, the enrollments that are left are dicts of the tenant's own user,
  -- whatever the list held before.
  pub strip_mapping-AllOwn :
      (f r : Fields) (kept : Items)
      → strip_mapping t f ≡ some r
      → get "enrollments" r ≡ list kept
      → AllOwn kept
  unfolding strip_mapping member
  strip_mapping-AllOwn f r kept e listed = strip_list-AllOwn (get "enrollments" f) kept (
      sym (get-strip_enrollments "enrollments" f)
      ∙ sym (get-strip_rest "enrollments" f (strip_enrollments t f) r e refl)
      ∙ listed)

  get-strip_submission_value :
      (v : Value) (s : Fields) (k : String)
      → strip_submission_value t v ≡ dict s
      → member k sensitive_submission_fields ≡ true
      → (same_user (get "user_id" s) t ≡ true) × (v ≡ dict s) ⊎ (get k s ≡ null)
  unfolding strip_submission_value
  get-strip_submission_value (dict s') s k e h =
      elim (Bool-cases (same_user (get "user_id" s') t)) [
        | inl mine ↦
            let same : dict s' ≡ dict s = rw mine at e in
            let same_fields : s' ≡ s = cc in inl (rw (← same_fields) mine, same)
        | inr other ↦
            let same : dict (pop_all sensitive_submission_fields s') ≡ dict s = rw other at e in
            let same_fields : pop_all sensitive_submission_fields s' ≡ s = cc in
            inr (rw (← same_fields, get-pop_all sensitive_submission_fields k s', h) refl)
      ]
  get-strip_submission_value null s k e h = cc
  get-strip_submission_value _ s k e h = cc

  -- In a mapping that is kept, a nested submission is the tenant's own and is as Canvas sent it, or
  -- each sensitive field (the body, the URLs, the attachments) is gone.
  pub strip_mapping_submission :
      (f r s : Fields) (k : String)
      → strip_mapping t f ≡ some r
      → get "submission" r ≡ dict s
      → member k sensitive_submission_fields ≡ true
      → (same_user (get "user_id" s) t ≡ true) × (get "submission" f ≡ dict s) ⊎ (get k s ≡ null)
  unfolding strip_mapping member
  strip_mapping_submission f r s k e nested sensitive =
      get-strip_submission_value (get "submission" f) s k
        (sym (
            get-strip_rest "submission" f (strip_enrollments t f) r e refl
            ∙ ap (strip_submission_value t) (get-strip_enrollments "submission" f))
          ∙ nested)
        sensitive

  -- A mapping is dropped as a whole exactly if it looks like an enrollment and its user is not the
  -- tenant's.
  pub strip_mapping_drops :
      (f : Fields)
      → is_none (strip_mapping t f)
        ≡ (looks_like_enrollment f && not (same_user (enrollment_user_id f) t))
  unfolding strip_mapping strip_rest
  strip_mapping_drops f = ground arith
