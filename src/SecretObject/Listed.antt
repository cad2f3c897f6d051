-- ===== src/SecretObject/Listed.antt =====
-- Exactly when `NewSecretObjectList` succeeds, and with which objects.
use mathlib.Core.Path.{ap₂, subst}
use secrets_store_csi_driver.Prelude.{
  ℕ, Text, ◌≡◌, refl, ap, sym, ◌∙◌, List, [], ◌∷◌, ◌++◌, ◌↔◌, Distinct, All, map, append_assoc,
  append-nil, Option, none, some,
}
use secrets_store_csi_driver.Outcome.{
  ok, Reply, done, failed, >>=-eq-ok, ok-injective, duplicate_name,
}
use secrets_store_csi_driver.SecretObject.{SecretObject}
use secrets_store_csi_driver.SecretObject.Validation.{validate_secret_object}
use secrets_store_csi_driver.SecretObject.Valid.{IsValid, validate_secret_object_iff}
use secrets_store_csi_driver.SecretObject.Listing.{
  ValidationState, place, process_secret_object, process_all, translation, read_spec, claim,
  claim_alias, claim_jmes, type_name_key, type_or_kms, new_secret_object_list,
}
use secrets_store_csi_driver.SecretObject.Names.{keys, claim_all, Claims-all, Distinct-append_left}

-- The keys of a list of objects.
abbrev pub keys_of : List SecretObject → List Text
keys_of [] = []
keys_of (s ∷ ss) = keys s ++ keys_of ss

module _ (t dir : Text) where
  -- A state with these names and objects.
  abbrev at : List Text → List SecretObject → ValidationState
  at names objects = record { names = names; objects = objects; translate = t; mount_dir = dir }

  process_sound :
      (names : List Text) (objects : List SecretObject) (spec : Option SecretObject)
      (st : ValidationState)
      → process_secret_object (at names objects) spec ≡ ok st
      → (s : SecretObject) × (spec ≡ some s)
        × IsValid (place t dir s)
        × (st ≡ at (names ++ keys (place t dir s)) (objects ++ place t dir s ∷ []))
        × (Distinct names → Distinct (names ++ keys (place t dir s)))
  unfolding process_secret_object
  process_sound names objects none st h = cc
  process_sound names objects (some spec) st h =
      let s = place t dir spec in
      let (_, valid, h') = >>=-eq-ok (validate_secret_object s) _ h in
      let duplicate = duplicate_name s.object_name (type_or_kms s) in
      let (keyed, hk, h'') = >>=-eq-ok (claim names (type_name_key s) duplicate) _ h' in
      let (aliased, ha, after_alias) = >>=-eq-ok (claim_alias keyed s.object_alias) _ h'' in
      let (extracted, he, after_jmes) = >>=-eq-ok (claim_jmes aliased s.jmes_path) _ after_alias in
      let all : claim_all names s duplicate ≡ ok extracted = rw (hk, ha) he in
      let (e, d) = (Claims-all names s duplicate).sound extracted all in
      (
        spec,
        refl,
        (validate_secret_object_iff s).0 valid,
        sym (ok-injective _ st after_jmes) ∙ ap (λ ns. at ns (objects ++ s ∷ [])) e,
        λ q. rw e at (d q),
      )

  process_complete :
      (names : List Text) (objects : List SecretObject) (spec : SecretObject)
      → IsValid (place t dir spec)
      → Distinct (names ++ keys (place t dir spec))
      → process_secret_object (at names objects) (some spec)
        ≡ ok (at (names ++ keys (place t dir spec)) (objects ++ place t dir spec ∷ []))
  unfolding process_secret_object
  process_complete names objects spec v d =
      let s = place t dir spec in
      let duplicate = duplicate_name s.object_name (type_or_kms s) in
      let all = (Claims-all names s duplicate).complete d in
      let (keyed, hk, h) = >>=-eq-ok (claim names (type_name_key s) duplicate) _ all in
      let (aliased, ha, h') = >>=-eq-ok (claim_alias keyed s.object_alias) _ h in
      rw ((validate_secret_object_iff s).1 v, hk, ha, h')

  process_all_sound :
      (names : List Text) (objects : List SecretObject) (specs : List (Option SecretObject))
      (st : ValidationState)
      → process_all (at names objects) specs ≡ ok st
      → (ss : List SecretObject) × (specs ≡ map some ss)
        × All IsValid (map (place t dir) ss)
        × (st.objects ≡ objects ++ map (place t dir) ss)
        × (Distinct names → Distinct (names ++ keys_of (map (place t dir) ss)))
  unfolding process_all
  process_all_sound names objects [] st h =
      let e = ok-injective (at names objects) st h in
      (
        [],
        refl,
        tt,
        sym (ap (λ (x : ValidationState). x.objects) e) ∙ sym (append-nil objects),
        λ d. rw append-nil d,
      )
  process_all_sound names objects (spec ∷ specs) st h =
      let (mid, hm, hrest) = >>=-eq-ok (process_secret_object (at names objects) spec) _ h in
      let (s, e, v, placed, d) = process_sound names objects spec mid hm in
      let o = place t dir s in
      let hrest' : process_all (at (names ++ keys o) (objects ++ o ∷ [])) specs ≡ ok st =
        rw placed at hrest in
      let (ss, es, vs, os, ds) =
        process_all_sound (names ++ keys o) (objects ++ o ∷ []) specs st hrest' in
      (
        s ∷ ss,
        ap₂ (λ x xs. x ∷ xs) e es,
        (v, vs),
        os ∙ append_assoc objects (o ∷ []) (map (place t dir) ss),
        λ q. rw (append_assoc names (keys o) (keys_of (map (place t dir) ss))) at (ds (d q)),
      )

  process_all_complete :
      (names : List Text) (objects ss : List SecretObject)
      → All IsValid (map (place t dir) ss)
      → Distinct (names ++ keys_of (map (place t dir) ss))
      → process_all (at names objects) (map some ss)
        ≡ ok (at (names ++ keys_of (map (place t dir) ss)) (objects ++ map (place t dir) ss))
  unfolding process_all
  process_all_complete names objects [] v d = rw (append-nil names, append-nil objects)
  process_all_complete names objects (s ∷ ss) (v, vs) d =
      let o = place t dir s in
      let d' = rw (← append_assoc names (keys o) (keys_of (map (place t dir) ss))) at d in
      let first =
        process_complete names objects s v (Distinct-append_left (names ++ keys o) _ d') in
      let rest = process_all_complete (names ++ keys o) (objects ++ o ∷ []) ss vs d' in
      rw first (
        rest
        ∙ ap₂ (λ ns os. ok (at ns os))
            (append_assoc names (keys o) (keys_of (map (place t dir) ss)))
            (append_assoc objects (o ∷ []) (map (place t dir) ss)))

read :
    (reply : Reply (List (Option SecretObject))) (specs : List (Option SecretObject))
    → read_spec reply ≡ ok specs
    → reply ≡ done specs
read (done xs) specs h = ap done (ok-injective xs specs h)
read (failed f) specs h = cc

-- `NewSecretObjectList` succeeds exactly when the path translation is one of the allowed ones, the
-- specification is a list of objects with no null among them, each of them is valid, and all keys
-- that they take in the map of names are different.  Its result is then the objects of the
-- specification in their order, each with the translation and the mount directory.
pub new_secret_object_list_iff :
    (unicode : ℕ → ℕ) (unmarshal : Text → Reply (List (Option SecretObject)))
    (mount_dir translate object_spec : Text) (objects : List SecretObject)
    → (new_secret_object_list unicode unmarshal mount_dir translate object_spec ≡ ok objects) ↔ (
        (t : Text) × (ss : List SecretObject) × (translation unicode translate ≡ ok t)
        × (unmarshal object_spec ≡ done (map some ss))
        × (objects ≡ map (place t mount_dir) ss)
        × All IsValid objects
        × Distinct (keys_of objects))
unfolding new_secret_object_list
new_secret_object_list_iff unicode unmarshal mount_dir translate object_spec objects = (forth, back)
  where
    forth :
        new_secret_object_list unicode unmarshal mount_dir translate object_spec ≡ ok objects
        → (t : Text) × (ss : List SecretObject) × (translation unicode translate ≡ ok t)
          × (unmarshal object_spec ≡ done (map some ss))
          × (objects ≡ map (place t mount_dir) ss)
          × All IsValid objects
          × Distinct (keys_of objects)
    forth h =
        let (t, ht, h') = >>=-eq-ok (translation unicode translate) _ h in
        let (specs, hs, h'') = >>=-eq-ok (read_spec (unmarshal object_spec)) _ h' in
        let (st, hp, last) = >>=-eq-ok (process_all (at t mount_dir [] []) specs) _ h'' in
        let (ss, e, v, os, d) = process_all_sound t mount_dir [] [] specs st hp in
        let placed = sym (ok-injective st.objects objects last) ∙ os in
        (
          t,
          ss,
          ht,
          read (unmarshal object_spec) specs hs ∙ ap done e,
          placed,
          subst (All IsValid) (sym placed) v,
          subst (λ o. Distinct (keys_of o)) (sym placed) (d tt),
        )

    back :
        (t : Text) × (ss : List SecretObject) × (translation unicode translate ≡ ok t)
          × (unmarshal object_spec ≡ done (map some ss))
          × (objects ≡ map (place t mount_dir) ss)
          × All IsValid objects
          × Distinct (keys_of objects)
        → new_secret_object_list unicode unmarshal mount_dir translate object_spec ≡ ok objects
    back (t, ss, ht, hs, e, v, d) = rw (
      ht,
      hs,
      process_all_complete t mount_dir [] [] ss (subst (All IsValid) e v)
          (subst (λ o. Distinct (keys_of o)) e d),
      e,
    )
