-- ===== src/Server/RoleCredentials.antt =====
-- The loop of `Mount` in server/server.go: how many credentials it makes for roles.
use secrets_store_csi_driver.Prelude.{
  ℕ, ◌+◌, Text, ◌≡◌, refl, ap, sym, ◌∙◌, subst, append_assoc, append-nil, inl, inr, List, [], ◌∷◌,
  ◌++◌, map, length, All, In, Distinct, arith,
}
use secrets_store_csi_driver.Outcome.{ok}
use secrets_store_csi_driver.Exec.{Ensures, Ensures-at, Ensures-bind}
use secrets_store_csi_driver.SecretObject.{SecretObject}
use secrets_store_csi_driver.SecretObject.Names.{Distinct-snoc}
use secrets_store_csi_driver.Auth.Methods.{Credential}
use secrets_store_csi_driver.Server.Keyed.{Keyed}
use secrets_store_csi_driver.Server.Clients.{Sdk}
use secrets_store_csi_driver.Server.Resolve.{Caches, no_caches, resolve, resolve_all}
use secrets_store_csi_driver.Server.Roles.{
  keys, Grown, RoundGrown, CountsRoleCredentials, resolve-RoundGrown,
}

-- The roles of a list of objects.
abbrev pub roles : List SecretObject → List Text
roles ss = map (λ (s : SecretObject). s.cross_account_role_arn) ss

later :
    (s : SecretObject) (ss : List SecretObject) (new : List Text)
    → All (λ k. In k (roles ss)) new
    → All (λ k. In k (roles (s ∷ ss))) new
later s ss [] h = tt
later s ss (k ∷ new) (i, h) = (inr i, later s ss new h)

module _ {W : Type 0} (sdk : Sdk W) (made : W → ℕ) (counts : CountsRoleCredentials sdk made)
    (cred : Credential) (region : Text) where
  -- The roles behind a list of objects, with one credential made for each.
  record Makes (ss : List SecretObject) (m : Keyed Credential) (w : W) (n : Keyed Credential)
      (v : W) : Type 0 where
    new : List Text
    behind : keys n ≡ keys m ++ new
    counted : made v ≡ made w + length new
    named : All (λ k. In k (roles ss)) new
    distinct : Distinct (keys m) → Distinct (keys n)

  combined :
      (s : SecretObject) (ss : List SecretObject) (m x n : Keyed Credential) (w u v : W)
      → Grown made s.cross_account_role_arn m w x u
      → Makes ss x u n v
      → Makes (s ∷ ss) m w n v
  combined s ss m x n w u v (inl (a, b)) h = record {
    new = h.new;
    behind = h.behind ∙ ap (λ (k : List Text). k ++ h.new) a;
    counted = h.counted ∙ ap (λ k. k + length h.new) b;
    named = later s ss h.new h.named;
    distinct = λ d. h.distinct (subst Distinct (sym a) d);
  }
  combined s ss m x n w u v (inr (f, a, b)) h = record {
    new = s.cross_account_role_arn ∷ h.new;
    behind =
        h.behind
        ∙ ap (λ (k : List Text). k ++ h.new) a
        ∙ append_assoc (keys m) (s.cross_account_role_arn ∷ []) h.new;
    counted = let total = h.counted in omega arith;
    named = (inl refl, later s ss h.new h.named);
    distinct = λ d.
        h.distinct
          (subst Distinct (sym a) ((Distinct-snoc (keys m) s.cross_account_role_arn).1 (d, f)));
  }

  abbrev LoopMakes : List SecretObject → Caches → W → List SecretObject × Caches → W → Type 0
  LoopMakes ss caches w r v = Makes ss caches.credentials w r.1.credentials v

  resolve_all-LoopMakes :
      (ss : List SecretObject) (caches : Caches) (w : W)
      → Ensures (LoopMakes ss caches w) (resolve_all sdk cred region ss caches w)
  unfolding resolve_all
  resolve_all-LoopMakes [] caches w = record {
    new = [];
    behind = sym (append-nil (keys caches.credentials));
    counted = omega arith;
    named = tt;
    distinct = λ d. d;
  }
  resolve_all-LoopMakes (s ∷ ss) caches w =
      Ensures-bind (RoundGrown made s caches w) (LoopMakes (s ∷ ss) caches w)
        (resolve sdk cred region s caches w) _
        (resolve-RoundGrown sdk made counts cred region s caches w)
        (λ (x : SecretObject × Caches) u g.
          Ensures-bind (LoopMakes ss x.1 u) (LoopMakes (s ∷ ss) caches w)
            (resolve_all sdk cred region ss x.1 u) _ (resolve_all-LoopMakes ss x.1 u)
            (λ (y : List SecretObject × Caches) v h.
              combined s ss caches.credentials x.1.credentials y.1.credentials w u v g h))

  -- In a measure of the world that counts the credentials that the SDK makes for roles, a loop that ends
  -- has made as many as there are in the caches; these are for different roles, each of some object: one
  -- credential is made for a role at most, however many objects and kinds it serves.
  pub resolve_all-made :
      (ss rs : List SecretObject) (caches : Caches) (w w' : W)
      → resolve_all sdk cred region ss no_caches w ≡ (ok (rs, caches), w')
      → (made w' ≡ made w + length (keys caches.credentials))
        × Distinct (keys caches.credentials)
        × All (λ k. In k (roles ss)) (keys caches.credentials)
  resolve_all-made ss rs caches w w' h =
      let known =
        Ensures-at (LoopMakes ss no_caches w) _ (rs, caches) w' h
          (resolve_all-LoopMakes ss no_caches w) in
      (
        known.counted ∙ ap (λ (k : List Text). made w + length k) (sym known.behind),
        known.distinct tt,
        subst (All (λ k. In k (roles ss))) (sym known.behind) known.named,
      )
