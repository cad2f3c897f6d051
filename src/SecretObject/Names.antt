-- ===== src/SecretObject/Names.antt =====
-- The keys that an object takes in the map of names, and that they are taken exactly once.
use mathlib.Core.Bool.{false≢true}
use secrets_store_csi_driver.Prelude.{
  Text, ◌≡◌, ap, sym, ◌∙◌, inl, inr, List, [], ◌∷◌, ◌++◌, true, ◌↔◌, In, Distinct, map,
  append_assoc, append-nil, is_empty, eq_text, eq_text_iff, Bool-cases, if◌then◌else◌,
  In-append-cases, In-append_left, In-append_right, arith,
}
use secrets_store_csi_driver.Outcome.{
  Outcome, ok, Error, guard-eq-ok, >>=-eq-ok, ok-injective, ◌>>=◌,
}
use secrets_store_csi_driver.SecretObject.{JmesPathObject, SecretObject}
use secrets_store_csi_driver.SecretObject.Listing.{
  has_name, claim, claim_alias, claim_jmes, type_name_key, jmes_key,
}

-- The keys of an object, in the order in which they are taken.
abbrev pub alias_keys : Text → List Text
alias_keys alias = if is_empty alias then [] else alias ∷ []

abbrev pub keys : SecretObject → List Text
keys s = type_name_key s ∷ (alias_keys s.object_alias ++ map jmes_key s.jmes_path)

pub has_name_iff : (names : List Text) (key : Text) → (has_name names key ≡ true) ↔ In key names
unfolding has_name
has_name_iff names key = (forth names, back names)
  where
    forth : (ns : List Text) → has_name ns key ≡ true → In key ns
    forth [] h = absurd (false≢true h)
    forth (n ∷ ns) h = elim (Bool-cases (eq_text n key)) [
      | inl e ↦ inl ((eq_text_iff n key).0 e)
      | inr e ↦ inr (forth ns (rw e at h))
    ]

    back : (ns : List Text) → In key ns → has_name ns key ≡ true
    back [] h = absurd h
    back (n ∷ ns) (inl e) = rw ((eq_text_iff n key).1 e)
    back (n ∷ ns) (inr h) = let found = back ns h in ground arith

-- A key behind different ones.
pub Distinct-snoc :
    (names : List Text) (key : Text)
    → Distinct (names ++ key ∷ []) ↔ (Distinct names × ¬ In key names)
Distinct-snoc names key = (forth names, back names)
  where
    forth : (ns : List Text) → Distinct (ns ++ key ∷ []) → Distinct ns × ¬ In key ns
    forth [] h = (tt, λ q. q)
    forth (n ∷ ns) (new, h) =
        let (d, fresh) = forth ns h in
        (
          (λ q. new (In-append_left n ns (key ∷ []) q), d),
          λ q. elim q [
            | inl e ↦ new (In-append_right n ns (key ∷ []) (inl (sym e)))
            | inr r ↦ fresh r
          ],
        )

    back : (ns : List Text) → Distinct ns × ¬ In key ns → Distinct (ns ++ key ∷ [])
    back [] h = (λ q. q, tt)
    back (n ∷ ns) ((new, d), fresh) = (
      λ q. elim (In-append-cases n ns (key ∷ []) q) [
        | inl r ↦ new r
        | inr (inl e) ↦ fresh (inl (sym e))
        | inr (inr r) ↦ r
      ],
      back ns (d, λ q. fresh (inr q)),
    )

-- A step over the names that takes these keys if they are new, and fails otherwise.
pub record Claims (names taken : List Text) (result : Outcome (List Text)) : Type 0 where
  pub sound :
      (ns : List Text) → result ≡ ok ns → (ns ≡ names ++ taken) × (Distinct names → Distinct ns)
  pub complete : Distinct (names ++ taken) → result ≡ ok (names ++ taken)

pub Distinct-append_left : (xs ys : List Text) → Distinct (xs ++ ys) → Distinct xs
Distinct-append_left [] ys h = tt
Distinct-append_left (x ∷ xs) ys (new, h) =
    (λ q. new (In-append_left x xs ys q), Distinct-append_left xs ys h)

Claims-none : (names : List Text) → Claims names [] (ok names)
Claims-none names = record {
  sound = λ ns e. (
    rw (← ok-injective names ns e) (sym (append-nil names)),
    λ d. rw (ok-injective names ns e) at d,
  );
  complete = λ d. rw append-nil;
}

Claims-claim :
    (names : List Text) (key : Text) (e : Error) → Claims names (key ∷ []) (claim names key e)
unfolding claim
Claims-claim names key e = record {
  sound = λ ns h.
      let (b, q) = guard-eq-ok (has_name names key) e (ok (names ++ key ∷ [])) ns h in
      let same = ok-injective (names ++ key ∷ []) ns q in
      (
        sym same,
        λ d. rw same at (
            (Distinct-snoc names key).1
              (d, λ old. false≢true (sym b ∙ (has_name_iff names key).1 old))),
      );
  complete = λ d. elim (Bool-cases (has_name names key)) [
    | inl b ↦ absurd (((Distinct-snoc names key).0 d).1 ((has_name_iff names key).0 b))
    | inr b ↦ rw b
  ];
}

Claims-bind :
    (names a b : List Text) (m : Outcome (List Text)) (f : List Text → Outcome (List Text))
    → Claims names a m
    → ((ns : List Text) → Claims ns b (f ns))
    → Claims names (a ++ b) (m >>= f)
Claims-bind names a b m f hm hf = record {
  sound = λ ns h.
      let (mid, hmid, hrest) = >>=-eq-ok m f h in
      let (e, d) = hm.sound mid hmid in
      let (e', d') = (hf mid).sound ns hrest in
      (e' ∙ ap (λ l. l ++ b) e ∙ append_assoc names a b, λ q. d' (d q));
  complete = λ q.
      let split = rw (← append_assoc names a b) at q in
      rw (hm.complete (Distinct-append_left (names ++ a) b split), ← append_assoc names a b)
        ((hf (names ++ a)).complete split);
}

pub Claims-alias :
    (names : List Text) (alias : Text) → Claims names (alias_keys alias) (claim_alias names alias)
unfolding claim_alias
Claims-alias names [] = Claims-none names
Claims-alias names (c ∷ alias) = Claims-claim names (c ∷ alias) _

pub Claims-jmes :
    (names : List Text) (js : List JmesPathObject)
    → Claims names (map jmes_key js) (claim_jmes names js)
unfolding claim_jmes
Claims-jmes names [] = Claims-none names
Claims-jmes names (j ∷ js) =
    Claims-bind names (jmes_key j ∷ []) (map jmes_key js) _ _ (Claims-claim names (jmes_key j) _)
      (λ ns. Claims-jmes ns js)

-- The three steps of `processSecretObject` over the names.
abbrev pub claim_all : List Text → SecretObject → Error → Outcome (List Text)
claim_all names s duplicate = do
  keyed ← claim names (type_name_key s) duplicate
  aliased ← claim_alias keyed s.object_alias
  claim_jmes aliased s.jmes_path

pub Claims-all :
    (names : List Text) (s : SecretObject) (e : Error) → Claims names (keys s) (claim_all names s e)
Claims-all names s e =
    Claims-bind names (type_name_key s ∷ []) (alias_keys s.object_alias ++ map jmes_key s.jmes_path)
      _ _ (Claims-claim names (type_name_key s) e)
      (λ ns.
        Claims-bind ns (alias_keys s.object_alias) (map jmes_key s.jmes_path) _ _
          (Claims-alias ns s.object_alias) (λ ks. Claims-jmes ks s.jmes_path))
