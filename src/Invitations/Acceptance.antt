-- ===== src/Invitations/Acceptance.antt =====
-- What accepting an invitation means, and that it happens once.
use mathlib.Core.List.{Memᴰ}
use modular_monolith.Prelude.{
  ltb, String, ◌==◌, ◌≡◌, refl, inl, inr, Bool, true, false, List, [], ◌∷◌, ◌++◌, Option, none,
  some, arith, eq_iff, any, find, map, Bool-cases, sym, ◌∙◌, ap, subst, if◌then◌else◌,
}
use modular_monolith.Failure.{Result, ok, err, sentinel, wrap, already_accepted}
use modular_monolith.Tables.{Db, User, RoleRow, UserRole, Invitation}
use modular_monolith.Session.{World, ◌>>◌, pure, map_error}
use modular_monolith.Session.Atomic.{statement-eq-ok}
use modular_monolith.Session.Inversion.{>>=-eq-ok, map_error-eq-ok}
use modular_monolith.Session.Transactions.{Answers, statement_ok}
use modular_monolith.Audit.Effect.{ignored_log-KeepsDb}
use modular_monolith.Rbac.Queries.{is_assignment}
use modular_monolith.Members.{is_role, create_membership_with_role}
use modular_monolith.Members.Joining.{Joined, create_membership_with_role-Joined}
use modular_monolith.Invitations.{
  has_token, select_invitation_sql, get_by_token, accepted, accept_invitation_sql, mark_accepted,
  log_invitation, is_accepted, create_member, join, accept_found, accept_invitation,
}

-- The invitation was pending, not expired and of this email; its organization has a new user of
-- this identity and email with the role of the invitation; and it is pending no more.
pub record Accepted (token identity_id email : String) (w : World) (i : Invitation)
    (users : List User) (assignments : List UserRole) (invitations : List Invitation) : Type 0 where
  pub found : find (has_token token) w.db.invitations ≡ some i
  pub pending : is_accepted i ≡ false
  pub in_time : ltb i.expires_at w.now ≡ false
  pub addressed : i.email ≡ email
  pub user : User
  pub joined : users ≡ w.db.users ++ user ∷ []
  pub user_organization : user.organization_id ≡ i.organization_id
  pub user_identity : user.identity_id ≡ identity_id
  pub user_email : user.email ≡ email
  pub assigned :
      (r : RoleRow)
      → Memᴰ r w.db.roles
      → is_role i.organization_id i.role_name r ≡ true
      → any (is_assignment i.organization_id user.id r.id) assignments ≡ true
  pub closed : Invitation
  pub stored : find (has_token token) invitations ≡ some closed
  pub done : is_accepted closed ≡ true

find-accepted :
    (token : String) (w : World) (rows : List Invitation) {i : Invitation}
    → find (has_token token) rows ≡ some i
    → find
        (has_token token)
        (map (λ (j : Invitation). if has_token token j then accepted w j else j) rows)
      ≡ some (accepted w i)
find-accepted token w [] h = absurd (ground (arith, h))
find-accepted token w (j ∷ rows) {i} h = elim (Bool-cases (has_token token j)) [
  | inl here ↦ ground (arith, here, h)
  | inr other ↦ ground (arith, other, h, find-accepted token w rows {i = i})
]

create_member-Joined :
    (i : Invitation) (identity_id email user_id : String) (w w' : World)
    → create_member true i identity_id email w ≡ (ok user_id, w')
    → (u : User) × Joined i.organization_id identity_id email i.role_name w.db u w'.db
unfolding create_member
create_member-Joined i identity_id email user_id w w' h =
    let create = create_membership_with_role i.organization_id identity_id email i.role_name in
    let explain = wrap "accept invitation: create user with role" in
    let (u, v, e, k) = >>=-eq-ok (map_error explain create) _ w h in
    let joined =
      create_membership_with_role-Joined i.organization_id identity_id email i.role_name w v u
        (map_error-eq-ok create w explain e) in
    let last : v.db ≡ w'.db = ground (arith, k) in
    (u, subst (Joined i.organization_id identity_id email i.role_name w.db u) last joined)

abbrev marked : String → World → List Invitation → List Invitation
marked token w = map (λ (j : Invitation). if has_token token j then accepted w j else j)

mark_accepted-db :
    (token : String) (w w' : World)
    → mark_accepted token w ≡ (ok tt, w')
    → w'.db ≡ record (w.db) { invitations = marked token w w.db.invitations }
unfolding mark_accepted accept_invitation_sql
mark_accepted-db token w w' h =
    let (rs, ran) = statement-eq-ok (accept_invitation_sql token) w h in ground (arith, ran)

logged-ok :
    (P : Db → Type 0)
    → ((db : Db) (logs : _) → P db → P (record db { audit_logs = logs }))
    → (organization_id entity_id : String) (metadata : List (String × String)) (i j : Invitation)
      (w w' : World)
    → (log_invitation organization_id "invitation_accepted" entity_id metadata >> pure i) w
      ≡ (ok j, w')
    → P w.db
    → (j ≡ i) × P w'.db
logged-ok P ignores organization_id entity_id metadata i j w w' h before = (
  ground (arith, h),
  subst (λ (x : Result Invitation × World). P x.1.db) h
      ((ignored_log-KeepsDb P ignores _).at w before),
)

module _ (token identity_id email : String) where
  abbrev AcceptedIn : World → Invitation → Db → Type 0
  AcceptedIn w i db = Accepted token identity_id email w i db.users db.user_roles db.invitations

  marked-Accepted :
      (w : World) (i : Invitation) (u : User) (middle : World) (after : Db)
      → find (has_token token) w.db.invitations ≡ some i
      → is_accepted i ≡ false
      → ltb i.expires_at w.now ≡ false
      → i.email ≡ email
      → Joined i.organization_id identity_id email i.role_name w.db u middle.db
      → after ≡ record (middle.db) { invitations = marked token middle middle.db.invitations }
      → AcceptedIn w i after
  marked-Accepted w i u middle after found pending in_time addressed joined done = record {
    found = found;
    pending = pending;
    in_time = in_time;
    addressed = addressed;
    user = u;
    joined = ground (arith, done, joined.db);
    user_organization = joined.user_organization;
    user_identity = joined.user_identity;
    user_email = joined.user_email;
    assigned = λ r listed named.
        (ap (λ (db : Db). any (is_assignment i.organization_id u.id r.id) db.user_roles)
          (done
            ∙ ap
                (λ (db : Db). record db { invitations = marked token middle middle.db.invitations })
                joined.db))
        ∙ joined.assigned r listed named;
    closed = accepted middle i;
    stored =
        ap (λ (db : Db). find (has_token token) db.invitations) done
        ∙ find-accepted token middle middle.db.invitations
            (ap (λ (db : Db). find (has_token token) db.invitations) joined.db ∙ found);
    done = refl;
  }

  join-Accepted :
      (start w w' : World) (i j : Invitation)
      → start.db ≡ w.db
      → find (has_token token) w.db.invitations ≡ some i
      → is_accepted i ≡ false
      → ltb i.expires_at w.now ≡ false
      → i.email ≡ email
      → join true token identity_id email i start ≡ (ok j, w')
      → (j ≡ i) × AcceptedIn w i w'.db
  unfolding join
  join-Accepted start w w' i j same found pending in_time addressed h =
      let explain = wrap "accept invitation: mark accepted" in
      let (user_id, w1, e1, h1) = >>=-eq-ok (create_member true i identity_id email) _ start h in
      let (_, w2, e2, h2) = >>=-eq-ok (map_error explain (mark_accepted token)) _ w1 h1 in
      let (u, joined) = create_member-Joined i identity_id email user_id start w1 e1 in
      let joined' =
        subst (λ (db : Db). Joined i.organization_id identity_id email i.role_name db u w1.db) same
          joined in
      let done =
        mark_accepted-db token w1 w2 (map_error-eq-ok (mark_accepted token) w1 explain e2) in
      logged-ok (AcceptedIn w i) (λ db logs k. k) i.organization_id i.id _ i j w2 w' h2
        (marked-Accepted w i u w1 w2.db found pending in_time addressed joined' done)

  accept_found-Accepted :
      (start w w' : World) (found : Option Invitation) (j : Invitation)
      → start.db ≡ w.db
      → start.now ≡ w.now
      → find (has_token token) w.db.invitations ≡ found
      → accept_found true token identity_id email found start ≡ (ok j, w')
      → AcceptedIn w j w'.db
  unfolding accept_found
  accept_found-Accepted start w w' none j same clock_same found h = absurd (ground (arith, h))
  accept_found-Accepted start w w' (some i) j same clock_same found h =
      let pending : is_accepted i ≡ false = ground (arith, h) in
      let in_time : ltb i.expires_at start.now ≡ false = ground (arith, h, pending) in
      let addressed : (i.email == email) ≡ true = ground (arith, h, pending, in_time) in
      let ran : join true token identity_id email i start ≡ (ok j, w') =
        ground (arith, h, pending, in_time, addressed) in
      let (is, result) =
        join-Accepted start w w' i j same found pending
          (ap (ltb i.expires_at) (sym clock_same) ∙ in_time) ((eq_iff i.email email).0 addressed)
          ran in
      subst (λ x. AcceptedIn w x w'.db) (sym is) result

  pub accept_invitation-Accepted :
      (w w' : World) (j : Invitation)
      → accept_invitation true token identity_id email w ≡ (ok j, w')
      → AcceptedIn w j w'.db
  unfolding accept_invitation get_by_token select_invitation_sql accept_found
  accept_invitation-Accepted w w' j h =
      let read = select_invitation_sql token in
      let (found, w1, e1, h1) =
        >>=-eq-ok (get_by_token token) (accept_found true token identity_id email) w h in
      let (rs, ran) = statement-eq-ok read w e1 in
      let known : find (has_token token) w.db.invitations ≡ found = ground (arith, ran) in
      let start : w1 ≡ record w { replies = rs } = ground (arith, ran) in
      accept_found-Accepted w1 w w' found j (ground (arith, start)) (ground (arith, start)) known h1

  -- An invitation that was accepted, with the atomic creation of users, is refused from then on, to every identity and email, while the
  -- connection answers; and nothing changes.
  pub accept_invitation-once :
      (w w' : World) (j : Invitation)
      → accept_invitation true token identity_id email w ≡ (ok j, w')
      → Answers w'
      → (with_role : Bool) (other_identity other_email : String)
      → accept_invitation with_role token other_identity other_email w'
        ≡ (err (sentinel already_accepted), w')
  unfolding accept_invitation get_by_token select_invitation_sql accept_found
  accept_invitation-once w w' j h q with_role other_identity other_email =
      let a = accept_invitation-Accepted w w' j h in
      ground (arith, statement_ok (select_invitation_sql token) w' q, a.stored, a.done)
