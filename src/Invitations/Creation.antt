-- ===== src/Invitations/Creation.antt =====
-- An invitation that was created can be looked up and is pending.
use modular_monolith.Prelude.{
  ℕ, ◌+◌, String, ◌≡◌, inl, inr, true, false, List, [], ◌∷◌, some, arith, eq_refl, any, find,
  find-append_of_none, Bool-cases, ◌∙◌, ap, subst,
}
use modular_monolith.Failure.{Result, ok}
use modular_monolith.Tables.{Db, Invitation}
use modular_monolith.Session.{World, M, ◌>>=◌, ◌>>◌, pure}
use modular_monolith.Session.Inversion.{>>=-eq-ok, tenant_statement-eq-ok}
use modular_monolith.Session.Transactions.{Answers, statement_ok}
use modular_monolith.Audit.Effect.{IgnoresAudit, ignored_log-KeepsDb}
use modular_monolith.Rbac.Statements.{contains}
use modular_monolith.Invitations.{
  valid_roles, has_token, insert_invitation_sql, create, select_invitation_sql, get_by_token,
  log_invitation, validity, is_accepted, create_invitation, found_or_fail, get_invitation,
}

-- The invitation is stored under its token, for this organization, email and role, valid for seven
-- days and pending.
pub record Invited (organization_id email role_name : String) (now : ℕ) (i : Invitation) (db : Db)
    : Type 0 where
  pub stored : find (has_token i.token) db.invitations ≡ some i
  pub for_organization : i.organization_id ≡ organization_id
  pub for_email : i.email ≡ email
  pub for_role : i.role_name ≡ role_name
  pub valid : contains role_name valid_roles ≡ true
  pub expires : i.expires_at ≡ now + validity
  pub pending : is_accepted i ≡ false

module _ (organization_id email role_name : String) where
  create-Invited :
      (now : ℕ) (token : String) (w w' : World) (i : Invitation)
      → contains role_name valid_roles ≡ true
      → create organization_id email role_name (now + validity) token w ≡ (ok i, w')
      → Invited organization_id email role_name now i w'.db
  unfolding create insert_invitation_sql
  create-Invited now token w w' i valid h =
      let insert = insert_invitation_sql organization_id email role_name token (now + validity) in
      let t = tenant_statement-eq-ok organization_id w insert h in
      let ran = t.ran in
      let fresh : any (has_token token) w.db.invitations ≡ false = ground (arith, ran) in
      record {
        stored =
            ap (λ (db : Db). find (has_token i.token) db.invitations) t.db
            ∙ ground (
              arith,
              ran,
              fresh,
              eq_refl token,
              find-append_of_none (has_token token) w.db.invitations (i ∷ []) fresh,
            );
        for_organization = ground (arith, ran, fresh);
        for_email = ground (arith, ran, fresh);
        for_role = ground (arith, ran, fresh);
        valid = valid;
        expires = ground (arith, ran, fresh);
        pending = ground (arith, ran, fresh);
      }

  logged-Invited :
      (now : ℕ) (entity_id : String) (metadata : List (String × String)) (j i : Invitation)
      (w w' : World)
      → (log_invitation organization_id "invitation_created" entity_id metadata >> pure j) w
        ≡ (ok i, w')
      → Invited organization_id email role_name now j w.db
      → Invited organization_id email role_name now i w'.db
  logged-Invited now entity_id metadata j i w w' h invited =
      let same : j ≡ i = ground (arith, h) in
      let kept =
        (ignored_log-KeepsDb (Invited organization_id email role_name now j) Invited-audit _).at w
          invited in
      subst (λ x. Invited organization_id email role_name now x w'.db) same
        (subst
          (λ (x : Result Invitation × World). Invited organization_id email role_name now j x.1.db)
          h kept)
    where
      Invited-audit : IgnoresAudit (Invited organization_id email role_name now j)
      Invited-audit db logs k = record {
        stored = k.stored;
        for_organization = k.for_organization;
        for_email = k.for_email;
        for_role = k.for_role;
        valid = k.valid;
        expires = k.expires;
        pending = k.pending;
      }

  create_invitation-Invited :
      (generate : M String) (w w' : World) (i : Invitation)
      → create_invitation generate organization_id email role_name w ≡ (ok i, w')
      → Invited organization_id email role_name w.now i w'.db
  unfolding create_invitation
  create_invitation-Invited generate w w' i h = elim (Bool-cases (contains role_name valid_roles)) [
    | inr unknown ↦ absurd (ground (arith, unknown, h))
    | inl valid ↦
        let finish : Invitation → M Invitation = λ j.
          log_invitation organization_id "invitation_created" j.id
            (("email", email) ∷ ("role", role_name) ∷ [])
          >> pure j in
        let store : String → M Invitation =
          create organization_id email role_name (w.now + validity) in
        let ran : (generate >>= λ token. store token >>= finish) w ≡ (ok i, w') =
          ground (arith, valid, h) in
        let (token, w1, e1, h1) = >>=-eq-ok generate (λ token. store token >>= finish) w ran in
        let (j, w2, e2, h2) = >>=-eq-ok (store token) finish w1 h1 in
        logged-Invited w.now j.id (("email", email) ∷ ("role", role_name) ∷ []) j i w2 w' h2
          (create-Invited w.now token w1 w2 j valid e2)
  ]

  -- An invitation that CreateInvitation returns has one of the four roles, is stored for this
  -- organization, email and role under its token, is pending and expires seven days after the call;
  -- and looking it up by the token gives it back while the connection answers.
  pub create_invitation-get :
      (generate : M String) (w w' : World) (i : Invitation)
      → create_invitation generate organization_id email role_name w ≡ (ok i, w')
      → Invited organization_id email role_name w.now i w'.db
        × (Answers w' → get_invitation i.token w' ≡ (ok i, w'))
  unfolding get_invitation get_by_token select_invitation_sql found_or_fail
  create_invitation-get generate w w' i h =
      let invited = create_invitation-Invited generate w w' i h in
      (
        invited,
        λ q. ground (arith, statement_ok (select_invitation_sql i.token) w' q, invited.stored),
      )
