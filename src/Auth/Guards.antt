-- ===== src/Auth/Guards.antt =====
-- src/common/guards: the global request guards. The metadata of a route's decorators and the headers
-- of a request are arguments; so are the JWT check of passport and the tracker of ThrottlerGuard.
use mathlib.Core.Path.{subst}
use majestan_backend.Prelude.{
  Bool, true, false, not, ◌&&◌, ◌||◌, Option, none, some, List, [], ◌∷◌, ◌≡◌, ◌≢◌, ◌↔◌, ◌⊎◌, refl,
  sym, ◌∙◌, arith, Bool-cases, Option-cases, inl, inr, if◌then◌else◌,
}
use majestan_backend.Prelude.Text.{Text, ◌=t◌, =t_iff, trim, is_empty}

pub data AppRole : Type 0 where
  admin staff user : AppRole

abbrev pub role_eq : AppRole → AppRole → Bool
role_eq admin admin = true
role_eq staff staff = true
role_eq user user = true
role_eq _ _ = false

abbrev pub includes : List AppRole → AppRole → Bool
includes [] r = false
includes (q ∷ qs) r = role_eq q r || includes qs r

-- What `Reflector.getAllAndOverride` finds for a route: `@Public()` and `@Roles(…)`.
pub record RouteMeta : Type 0 where
  pub is_public : Bool
  pub required_roles : Option (List AppRole)

-- `RolesGuard.canActivate`, with the role of `request.user`, if there is one.
unfoldable pub roles_guard : RouteMeta → Option AppRole → Bool
roles_guard route user_role = if route.is_public then true else elim route.required_roles [
  | none ↦ true
  | some [] ↦ true
  | some (r ∷ rs) ↦ elim user_role [ none ↦ false | some role ↦ includes (r ∷ rs) role ]
]

-- `JwtAuthGuard.canActivate`, with the answer of passport's guard for the bearer token.
unfoldable pub jwt_guard : RouteMeta → Bool → Bool
jwt_guard route token_valid = if route.is_public then true else token_valid

-- The two guards that `AppModule` provides behind the throttle, in order.
unfoldable pub allows : RouteMeta → Bool → Option AppRole → Bool
unfolding jwt_guard roles_guard
allows route token_valid user_role =
    if jwt_guard route token_valid then roles_guard route user_role else false

-- The value of one header: absent, one value, or a list.
pub data Header : Type 0 where
  absent : Header
  single : Text → Header
  many : List Text → Header

abbrev pub first_of : Header → Text
first_of absent = []
first_of (single v) = v
first_of (many []) = []
first_of (many (v ∷ vs)) = v

-- `header(req, name)`
unfoldable pub header : Header → Text
header h = trim (first_of h)

pub record HeaderBag : Type 0 where
  pub internal_key : Header
  pub client_ip : Header

-- `isInternalRequest`, with the value of INTERNAL_API_KEY ('' where it is unset). The bytes of two
-- texts are equal exactly when the texts are.
unfoldable pub is_internal_request : Text → HeaderBag → Bool
unfolding header
is_internal_request expected req =
    let given = header req.internal_key in
    if is_empty expected || is_empty given then false else given =t expected

-- `SiteThrottlerGuard.shouldSkip`
unfoldable pub should_skip : Text → HeaderBag → Bool
unfolding is_internal_request header
should_skip expected req = is_internal_request expected req && is_empty (header req.client_ip)

-- `SiteThrottlerGuard.getTracker`, with the connecting address that the base class returns.
unfoldable pub get_tracker : Text → HeaderBag → Text → Text
unfolding is_internal_request header
get_tracker expected req connecting =
    let client_ip = header req.client_ip in
    if is_internal_request expected req && not (is_empty client_ip) then client_ip else connecting

-- The role is one of the list.
pub data IsNamed (role : AppRole) : List AppRole → Type 0 where
  here : (rs : List AppRole) → IsNamed role (role ∷ rs)
  there : (r : AppRole) (rs : List AppRole) → IsNamed role rs → IsNamed role (r ∷ rs)

role_eq_sound : (q r : AppRole) → role_eq q r ≡ true → q ≡ r
role_eq_sound admin admin h = refl
role_eq_sound staff staff h = refl
role_eq_sound user user h = refl
role_eq_sound admin staff h = absurd (ground arith)
role_eq_sound admin user h = absurd (ground arith)
role_eq_sound staff admin h = absurd (ground arith)
role_eq_sound staff user h = absurd (ground arith)
role_eq_sound user admin h = absurd (ground arith)
role_eq_sound user staff h = absurd (ground arith)

role_eq_refl : (r : AppRole) → role_eq r r ≡ true
role_eq_refl admin = refl
role_eq_refl staff = refl
role_eq_refl user = refl

includes-IsNamed : (rs : List AppRole) (role : AppRole) → includes rs role ≡ true → IsNamed role rs
includes-IsNamed [] role h = absurd (ground arith)
includes-IsNamed (r ∷ rs) role h = elim (Bool-cases (role_eq r role)) [
  | inl same ↦ subst (λ x. IsNamed role (x ∷ rs)) (sym (role_eq_sound r role same)) (here rs)
  | inr other ↦ there r rs (includes-IsNamed rs role (ground arith))
]

includes_of_IsNamed :
    (role : AppRole) (rs : List AppRole) → IsNamed role rs → includes rs role ≡ true
includes_of_IsNamed role _ (here rs) = ground (arith, role_eq_refl role)
includes_of_IsNamed role _ (there r rs m) = ground (arith, includes_of_IsNamed role rs m)

-- The decorators of a route name no role.
abbrev pub NamesNone : RouteMeta → Type 0
NamesNone route = (route.required_roles ≡ none) ⊎ (route.required_roles ≡ some [])

-- The user has a role that the decorators of a route name.
abbrev pub HasNamed : RouteMeta → Option AppRole → Type 0
HasNamed route user_role =
    (role : AppRole) × (rs : List AppRole) × (user_role ≡ some role)
    × (route.required_roles ≡ some rs)
    × IsNamed role rs

roles_guard_sound :
    (route : RouteMeta) (user_role : Option AppRole)
    → route.is_public ≡ false
    → roles_guard route user_role ≡ true
    → NamesNone route ⊎ HasNamed route user_role
unfolding roles_guard
roles_guard_sound route user_role private' h = elim (Option-cases route.required_roles) [
  | inl none' ↦ inl (inl none')
  | inr ([], empty) ↦ inl (inr empty)
  | inr (r ∷ rs, named) ↦ elim (Option-cases user_role) [
    | inl anonymous ↦
        let h' : false ≡ true = rw (private', named, anonymous, roles_guard) at h in
        absurd (ground arith)
    | inr (role, known) ↦
        let h' : includes (r ∷ rs) role ≡ true = rw (private', named, known, roles_guard) at h in
        inr (role, r ∷ rs, known, named, includes-IsNamed (r ∷ rs) role h')
  ]
]

roles_guard_complete :
    (route : RouteMeta) (user_role : Option AppRole)
    → NamesNone route ⊎ HasNamed route user_role
    → roles_guard route user_role ≡ true
unfolding roles_guard
roles_guard_complete route user_role h = elim (Bool-cases route.is_public) [
  | inl open' ↦ rw (open', roles_guard) refl
  | inr private' ↦ elim h [
    | inl (inl none') ↦ rw (private', none', roles_guard) refl
    | inl (inr empty) ↦ rw (private', empty, roles_guard) refl
    | inr (role, [], known, named, m) ↦ rw (private', named, roles_guard) refl
    | inr (role, r ∷ rs, known, named, m) ↦
        rw (private', named, known, roles_guard) (includes_of_IsNamed role (r ∷ rs) m)
  ]
]

-- Behind a valid token the second guard decides.
allows_valid :
    (route : RouteMeta) (user_role : Option AppRole)
    → allows route true user_role ≡ roles_guard route user_role
unfolding allows jwt_guard roles_guard
allows_valid route user_role = elim (Bool-cases route.is_public) [
  | inl open' ↦ rw open' refl
  | inr private' ↦ rw private' refl
]

allows_public :
    (route : RouteMeta) (token_valid : Bool) (user_role : Option AppRole)
    → route.is_public ≡ true
    → allows route token_valid user_role ≡ true
unfolding allows jwt_guard roles_guard
allows_public route token_valid user_role h = rw h refl

allows_invalid :
    (route : RouteMeta) (user_role : Option AppRole)
    → route.is_public ≡ false
    → allows route false user_role ≡ false
unfolding allows jwt_guard
allows_invalid route user_role h = rw h refl

-- The JWT guard and the roles guard let a request enter a route exactly if the route is public, or the
-- token is valid and the route names no role or one that the user has. A public route is entered by anyone, also where roles are named for it.
pub allows_iff :
    (route : RouteMeta) (token_valid : Bool) (user_role : Option AppRole)
    → (allows route token_valid user_role ≡ true) ↔ (
        (route.is_public ≡ true)
        ⊎ (token_valid ≡ true) × (NamesNone route ⊎ HasNamed route user_role))
allows_iff route token_valid user_role = (sound token_valid, complete token_valid)
  where
    sound :
        (token : Bool)
        → allows route token user_role ≡ true
        → (route.is_public ≡ true) ⊎ (token ≡ true) × (NamesNone route ⊎ HasNamed route user_role)
    sound true h = elim (Bool-cases route.is_public) [
      | inl open' ↦ inl open'
      | inr private' ↦
          let h' = sym (allows_valid route user_role) ∙ h in
          inr (refl, roles_guard_sound route user_role private' h')
    ]
    sound false h = elim (Bool-cases route.is_public) [
      | inl open' ↦ inl open'
      | inr private' ↦
          let h' : false ≡ true = sym (allows_invalid route user_role private') ∙ h in
          absurd (ground arith)
    ]

    complete :
        (token : Bool)
        → (route.is_public ≡ true) ⊎ (token ≡ true) × (NamesNone route ⊎ HasNamed route user_role)
        → allows route token user_role ≡ true
    complete token (inl open') = allows_public route token user_role open'
    complete true (inr (valid, h)) =
        allows_valid route user_role ∙ roles_guard_complete route user_role h
    complete false (inr (valid, h)) = absurd (ground arith)

-- With no key configured the throttle is the plain one, whatever the headers say: nothing is skipped
-- and the budget is that of the connecting address.
pub throttle_without_key :
    (req : HeaderBag) (connecting : Text)
    → (should_skip [] req ≡ false) × (get_tracker [] req connecting ≡ connecting)
unfolding should_skip get_tracker
throttle_without_key req connecting = (ground arith, ground arith)

-- A request is skipped, or counted under an address that it names itself, only if it carries the
-- configured key.
pub throttle_needs_key :
    (expected : Text) (req : HeaderBag) (connecting : Text)
    → header req.internal_key ≢ expected
    → (should_skip expected req ≡ false) × (get_tracker expected req connecting ≡ connecting)
unfolding should_skip get_tracker
throttle_needs_key expected req connecting wrong =
    let refused : is_internal_request expected req ≡ false =
      unfold is_internal_request in ground (arith, =t_iff (header req.internal_key) expected) in
    (ground arith, ground arith)
