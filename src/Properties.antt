-- ===== src/Properties.antt =====
-- src/properties/property-status.constants.ts, and the methods of src/properties/properties.service.ts and
-- src/properties/property-expiry.service.ts that change a status. Caches and notifications are left out.
use prop_chain_back_end.Base.{
  ◌∙◌, ◌<◌, refl, ℕ, ◌+◌, ◌*◌, ◌≡◌, Bool, true, false, not, ◌&&◌, ◌||◌, List, [], ◌∷◌, Option, none,
  some, if◌then◌else◌, arith, Action, not_found, bad_request, forbidden, gets, or_throw, throw_if,
  modify, ◌>>=◌, ◌>>◌, ◌==◌, ltb, any, patch,
}
use prop_chain_back_end.Auth.Rows.{UserRole}
use prop_chain_back_end.Table.{Table}
use prop_chain_back_end.Table.Laws.{
  count_where-update_many, count_where-zero, find_unique-update_many,
}

pub data PropertyStatus : Type 0 where
  draft pending active under_contract sold rented archived expired : PropertyStatus

abbrev pub status_code : PropertyStatus → ℕ
status_code draft = 0
status_code pending = 1
status_code active = 2
status_code under_contract = 3
status_code sold = 4
status_code rented = 5
status_code archived = 6
status_code expired = 7

abbrev pub same_status : PropertyStatus → PropertyStatus → Bool
same_status a b = status_code a == status_code b

abbrev pub allowed_property_status_transitions : PropertyStatus → List PropertyStatus
allowed_property_status_transitions draft = pending ∷ archived ∷ expired ∷ []
allowed_property_status_transitions pending = active ∷ draft ∷ archived ∷ expired ∷ []
allowed_property_status_transitions active = under_contract ∷ rented ∷ archived ∷ expired ∷ []
allowed_property_status_transitions under_contract = sold ∷ active ∷ []
allowed_property_status_transitions sold = archived ∷ []
allowed_property_status_transitions rented = active ∷ archived ∷ []
allowed_property_status_transitions archived = draft ∷ []
allowed_property_status_transitions expired = active ∷ draft ∷ archived ∷ []

unfoldable pub can_transition_property_status : PropertyStatus → PropertyStatus → Bool
can_transition_property_status current to =
    same_status current to || any (same_status to) (allowed_property_status_transitions current)

pub record Property : Type 0 where
  pub id : ℕ
  pub owner_id : ℕ
  pub status : PropertyStatus
  pub expiry_date : Option ℕ
  pub updated_at : ℕ

abbrev pub is_privileged : UserRole → Bool
is_privileged UserRole.user = false
is_privileged UserRole.agent = true
is_privileged UserRole.admin = true

-- the statuses that a property does not expire from
abbrev pub is_final : PropertyStatus → Bool
is_final draft = false
is_final pending = false
is_final active = false
is_final under_contract = false
is_final sold = true
is_final rented = true
is_final archived = true
is_final expired = true

abbrev pub is_before : Option ℕ → ℕ → Bool
is_before none now = false
is_before (some t) now = ltb t now

-- the `where` of `expireProperties`
abbrev pub is_expiring : ℕ → Property → Bool
is_expiring now p = is_before p.expiry_date now && not (is_final p.status)

-- Prisma sets `updatedAt` with every update
abbrev pub with_status : ℕ → PropertyStatus → Property → Property
with_status now status p = record p { status = status; updated_at = now }

-- the `where` of `archiveExpiredPropertiesPastGracePeriod`, with days of 24 hours
abbrev pub is_past_grace : ℕ → Property → Bool
is_past_grace now p = same_status p.status expired && ltb (p.updated_at + 30 * 86400000) now

module _ (properties : Table Property (λ p. p.id)) where
  open properties use {Rows}

  unfoldable pub transition_status : ℕ → ℕ → PropertyStatus → ℕ → UserRole → Action Rows (Unit {0})
  transition_status now id to actor_id actor_role = do
    found ← gets (properties.find_unique id)
    property ← or_throw found (not_found "Property not found")
    throw_if (not (property.owner_id == actor_id) && not (is_privileged actor_role))
        (forbidden "You are not allowed to change the status of this property")
    throw_if (not (can_transition_property_status property.status to))
        (bad_request "Cannot transition property")
    modify (λ t.
        if same_status property.status to then t else properties.update id (with_status now to) t)

  unfoldable pub expire_properties : ℕ → Rows → ℕ × Rows
  expire_properties now t = (
    properties.count_where (is_expiring now) t,
    properties.update_many (is_expiring now) (with_status now expired) t,
  )

  unfoldable pub archive_expired_properties : ℕ → Rows → ℕ × Rows
  archive_expired_properties now t = (
    properties.count_where (is_past_grace now) t,
    properties.update_many (is_past_grace now) (with_status now archived) t,
  )

  -- After expireProperties no property is left that it would expire.
  pub expire_properties_none_left :
      (now : ℕ) (t : Rows)
      → properties.count_where (is_expiring now) (expire_properties now t).1 ≡ 0
  unfolding expire_properties
  expire_properties_none_left now t =
      count_where-update_many properties (is_expiring now) (is_expiring now)
        (with_status now expired) t
      ∙ count_where-zero properties
          (λ p. is_expiring now (patch (is_expiring now) (with_status now expired) p)) t
          (λ p. ground arith)

  -- transitionStatus changes nothing where the workflow does not allow the transition.
  pub transition_status_allowed :
      (now id actor_id : ℕ) (to : PropertyStatus) (role : UserRole) (t : Rows) {p : Property}
      → properties.find_unique id t ≡ some p
      → can_transition_property_status p.status to ≡ false
      → (transition_status now id to actor_id role t).1 ≡ t
  unfolding transition_status
  transition_status_allowed now id actor_id to role t found refused = ground (arith, found, refused)

  -- A property under contract expires, which the workflow does not allow from that status.
  pub expire_properties_under_contract :
      (now id date : ℕ) (t : Rows) {p : Property}
      → properties.find_unique id t ≡ some p
      → p.status ≡ under_contract
      → p.expiry_date ≡ some date
      → date < now
      → (properties.find_unique id (expire_properties now t).1 ≡ some (with_status now expired p))
        × (can_transition_property_status under_contract expired ≡ false)
  unfolding expire_properties can_transition_property_status
  expire_properties_under_contract now id date t found in_contract dated past = (
    ground (
      arith,
      found,
      in_contract,
      dated,
      past,
      find_unique-update_many properties id (is_expiring now) (with_status now expired) t
          (λ r. refl),
    ),
    refl,
  )
