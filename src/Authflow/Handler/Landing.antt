-- ===== src/Authflow/Handler/Landing.antt =====
-- Where Callback sends a user with a session (handler.go).

use modular_monolith.Prelude.{
  String, ◌==◌, ◌≡◌, ◌⊎◌, inl, inr, refl, false, List, [], ◌∷◌, some, arith, eq_iff, Bool-cases,
  any, select, length, ltb, map,
}
use modular_monolith.Failure.{Error, ok, err}
use modular_monolith.Tables.{User}
use modular_monolith.Session.{World, M}
use modular_monolith.Session.Atomic.{statement_cases}
use modular_monolith.Members.{
  Membership, membership_of, has_identity, list_memberships, has_memberships,
}
use modular_monolith.Authflow.User.{SessionUser}
use modular_monolith.Authflow.Handler.{landing}

length-memberships :
    (identity_id : String) (users : List User)
    → ltb 0 (length (map membership_of (select (has_identity identity_id) users)))
      ≡ any (has_identity identity_id) users
length-memberships identity_id [] = refl
length-memberships identity_id (u ∷ users) = ground (arith, length-memberships identity_id users)

-- What HasMemberships answers.
abbrev memberships_sql : String → M (List Membership)
memberships_sql identity_id w =
    (ok (map membership_of (select (has_identity identity_id) w.db.users)), w)

has_memberships_cases :
    (identity_id : String) (w : World)
    → ((w' : World) × (has_memberships identity_id w
          ≡ (ok (any (has_identity identity_id) w.db.users), w'))
        × (w'.db ≡ w.db))
      ⊎ ((e : Error) × (w' : World) × (has_memberships identity_id w ≡ (err e, w'))
          × (w'.db ≡ w.db))
unfolding has_memberships list_memberships
has_memberships_cases identity_id w = elim (statement_cases (memberships_sql identity_id) w) [
  | inr (e, rs, r) ↦ inr (e, record w { replies = rs }, ground (arith, r), refl)
  | inl (rs, r) ↦ inl (
    record w { replies = rs },
    ground (arith, r, length-memberships identity_id w.db.users),
    refl,
  )
]

-- Where a user with a session is sent, and that finding out changes nothing.
pub record Lands (user : SessionUser) (w : World) (x : String × World) : Type 0 where
  pub url :
      (x.0 ≡ "/dashboard")
      ⊎ ((x.0 ≡ "/onboarding")
          × ((any (has_identity user.identity_id) w.db.users ≡ false) ⊎ (user.identity_id ≡ "")))
  pub db : x.1.db ≡ w.db

pub landing-Lands :
    (user : SessionUser) (w : World) → Lands user w (landing (some has_memberships) user w)
unfolding landing
landing-Lands user w = elim (Bool-cases (user.identity_id == "")) [
  | inl unnamed ↦ elim (Bool-cases (user.organization_id == "")) [
    | inl nowhere ↦ record {
      url = inr (
        ground (arith, unnamed, nowhere),
        inr (ground (arith, unnamed, eq_iff user.identity_id "")),
      );
      db = ground (arith, unnamed, nowhere);
    }
    | inr org ↦ record {
      url = inl (ground (arith, unnamed, org));
      db = ground (arith, unnamed, org);
    }
  ]
  | inr named ↦ elim (has_memberships_cases user.identity_id w) [
    | inr (e, w', h, kept) ↦ record {
      url = inl (ground (arith, named, h));
      db = ground (arith, named, h, kept);
    }
    | inl (w', h, kept) ↦ elim (Bool-cases (any (has_identity user.identity_id) w.db.users)) [
      | inl member ↦ record {
        url = inl (ground (arith, named, h, member));
        db = ground (arith, named, h, kept);
      }
      | inr stranger ↦ record {
        url = inr (ground (arith, named, h, stranger), inl stranger);
        db = ground (arith, named, h, kept);
      }
    ]
  ]
]
