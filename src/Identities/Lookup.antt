-- ===== src/Identities/Lookup.antt =====
-- What a successful `FindOrCreateIdentity` (service.go) returns, and that it can be repeated.
use modular_monolith.Prelude.{
  String, ◌==◌, ◌≡◌, inl, inr, false, not, ◌||◌, List, [], ◌∷◌, Option, none, some, arith, eq_iff,
  eq_refl, find, find-append_of_none, any, ◌∙◌, Bool-cases, Option-cases,
}
use modular_monolith.Failure.{ok}
use modular_monolith.Tables.{Identity}
use modular_monolith.Session.{World}
use modular_monolith.Session.Atomic.{statement-eq-ok}
use modular_monolith.Session.Inversion.{>>=-eq-ok}
use modular_monolith.Session.Transactions.{Answers, statement_ok}
use modular_monolith.Identities.{
  is_provider_id, select_by_provider_id_sql, get_by_zitadel_user_id, new_identity,
  insert_identity_sql, create_identity, refresh_rows, clashes_email, update_identity_sql,
  update_identity, find_or_create_found, find_or_create_identity,
}

-- The identity is stored under the provider's identifier, with this email and name.
pub record Identified (zitadel_user_id email name : String) (i : Identity) (rows : List Identity)
    : Type 0 where
  pub stored : find (is_provider_id zitadel_user_id) rows ≡ some i
  pub same_email : i.email ≡ email
  pub same_name : i.name ≡ name

module _ (zitadel_user_id email name : String) where
  insert-Identified :
      (w w' : World) (i : Identity)
      → create_identity zitadel_user_id email name w ≡ (ok i, w')
      → Identified zitadel_user_id email name i w'.db.identities
  unfolding create_identity insert_identity_sql
  insert-Identified w w' i h =
      let (rs, ran) = statement-eq-ok (insert_identity_sql zitadel_user_id email name) w h in
      let fresh : any (is_provider_id zitadel_user_id) w.db.identities ≡ false =
        ground (arith, ran) in
      record {
        stored = ground (
          arith,
          ran,
          eq_refl zitadel_user_id,
          find-append_of_none (is_provider_id zitadel_user_id) w.db.identities
              (new_identity w zitadel_user_id email name ∷ []) fresh,
        );
        same_email = ground (arith, ran);
        same_name = ground (arith, ran);
      }

  find-refresh_rows :
      (w : World) (rows : List Identity) {i : Identity}
      → find (is_provider_id zitadel_user_id) (refresh_rows w zitadel_user_id email name rows)
        ≡ some i
      → (i.email ≡ email) × (i.name ≡ name)
  find-refresh_rows w [] h = absurd (ground (arith, h))
  find-refresh_rows w (j ∷ rows) {i} h = elim (Bool-cases (is_provider_id zitadel_user_id j)) [
    | inl here ↦ (ground (arith, here, h), ground (arith, here, h))
    | inr other ↦ find-refresh_rows w rows {i = i} (ground (arith, other, h))
  ]

  update-Identified :
      (w w' : World) (i : Identity)
      → update_identity zitadel_user_id email name w ≡ (ok i, w')
      → Identified zitadel_user_id email name i w'.db.identities
  unfolding update_identity update_identity_sql
  update-Identified w w' i h =
      let (rs, ran) = statement-eq-ok (update_identity_sql zitadel_user_id email name) w h in
      let rows = refresh_rows w zitadel_user_id email name w.db.identities in
      let free : clashes_email zitadel_user_id email w.db.identities ≡ false =
        ground (arith, ran) in
      let found : find (is_provider_id zitadel_user_id) rows ≡ some i =
        elim (Option-cases (find (is_provider_id zitadel_user_id) rows)) [
          | inl missing ↦ absurd (ground (arith, ran, free, missing))
          | inr (j, e) ↦ ground (arith, ran, free, e)
        ] in
      let (same_email, same_name) = find-refresh_rows w w.db.identities {i = i} found in
      record {
        stored = ground (arith, ran, free, found);
        same_email = same_email;
        same_name = same_name;
      }

  found-Identified :
      (v w' : World) (i : Identity) (found : Option Identity)
      → find (is_provider_id zitadel_user_id) v.db.identities ≡ found
      → find_or_create_found zitadel_user_id email name found v ≡ (ok i, w')
      → Identified zitadel_user_id email name i w'.db.identities
  unfolding find_or_create_found
  found-Identified v w' i none known h = insert-Identified v w' i h
  found-Identified v w' i (some j) known h =
      elim (Bool-cases (not (j.email == email) || not (j.name == name))) [
        | inl stale ↦ update-Identified v w' i (ground (arith, stale, h))
        | inr fresh ↦ record {
          stored = ground (arith, fresh, h, known);
          same_email = ground (arith, fresh, h, eq_iff j.email email);
          same_name = ground (arith, fresh, h, eq_iff j.name name);
        }
      ]

  -- An identity that FindOrCreateIdentity returns is the stored one of the provider's identifier, and
  -- has the given email and name, whether it was new, changed or up to date.
  pub find_or_create_identity-Identified :
      (w w' : World) (i : Identity)
      → find_or_create_identity zitadel_user_id email name w ≡ (ok i, w')
      → Identified zitadel_user_id email name i w'.db.identities
  unfolding find_or_create_identity get_by_zitadel_user_id select_by_provider_id_sql
  find_or_create_identity-Identified w w' i h =
      let (found, v, e, k) =
        >>=-eq-ok (get_by_zitadel_user_id zitadel_user_id)
          (find_or_create_found zitadel_user_id email name) w h in
      let (rs, ran) = statement-eq-ok (select_by_provider_id_sql zitadel_user_id) w e in
      found-Identified v w' i found (ground (arith, ran)) k

  -- The same call again, after one that succeeded and while the connection answers, returns the same
  -- identity and changes nothing.
  pub find_or_create_identity-again :
      (w w' : World) (i : Identity)
      → find_or_create_identity zitadel_user_id email name w ≡ (ok i, w')
      → Answers w'
      → find_or_create_identity zitadel_user_id email name w' ≡ (ok i, w')
  unfolding find_or_create_identity get_by_zitadel_user_id select_by_provider_id_sql
      find_or_create_found
  find_or_create_identity-again w w' i h q =
      let s = find_or_create_identity-Identified w w' i h in
      ground (
        arith,
        statement_ok (select_by_provider_id_sql zitadel_user_id) w' q,
        s.stored,
        s.same_email,
        s.same_name,
        eq_iff i.email email,
        eq_iff i.name name,
      )

  found-now :
      (v w' : World) (i : Identity) (found : Option Identity)
      → find_or_create_found zitadel_user_id email name found v ≡ (ok i, w')
      → w'.now ≡ v.now
  unfolding find_or_create_found create_identity insert_identity_sql update_identity
      update_identity_sql
  found-now v w' i none h =
      let (rs, ran) = statement-eq-ok (insert_identity_sql zitadel_user_id email name) v h in
      ground (arith, ran)
  found-now v w' i (some j) h = elim (Bool-cases (not (j.email == email) || not (j.name == name))) [
    | inl stale ↦
        let (rs, ran) =
          statement-eq-ok (update_identity_sql zitadel_user_id email name) v {a = i} {w' = w'}
            (ground (arith, stale, h)) in
        ground (arith, ran)
    | inr fresh ↦ ground (arith, fresh, h)
  ]

  -- The call does not touch the clock.
  pub find_or_create_identity-now :
      (w w' : World) (i : Identity)
      → find_or_create_identity zitadel_user_id email name w ≡ (ok i, w')
      → w'.now ≡ w.now
  unfolding find_or_create_identity get_by_zitadel_user_id select_by_provider_id_sql
      find_or_create_found create_identity insert_identity_sql update_identity update_identity_sql
  find_or_create_identity-now w w' i h =
      let (found, v, e, k) =
        >>=-eq-ok (get_by_zitadel_user_id zitadel_user_id)
          (find_or_create_found zitadel_user_id email name) w h in
      let (rs, ran) = statement-eq-ok (select_by_provider_id_sql zitadel_user_id) w e in
      found-now v w' i found k ∙ ground (arith, ran)
