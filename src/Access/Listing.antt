-- ===== src/Access/Listing.antt =====
-- The list of `getAccessibleProjectIds` beside `canAccessProject`.
use agentest.Shared.{
  ℕ, ◌+◌, ◌≡◌, refl, ap, inl, inr, true, ◌||◌, List, [], ◌∷◌, ◌++◌, arith, if◌then◌else◌, ◌==◌,
  ==_iff, includes, is_some, map, ◌∙◌, Bool-cases,
}
use agentest.Access.{
  World, live_project, can_access_project, unique_from, get_accessible_project_ids, ProjectMember,
  has_member, FindMany, is_direct, is_of_organization,
}

abbrev pub occurrences : ℕ → List ℕ → ℕ
occurrences p [] = 0
occurrences p (x ∷ xs) = (if x == p then 1 else 0) + occurrences p xs

includes-append :
    (p : ℕ) (xs ys : List ℕ) → includes (xs ++ ys) p ≡ (includes xs p || includes ys p)
includes-append p [] ys = refl
includes-append p (x ∷ xs) ys = ground (arith, includes-append p xs ys)

occurrences-unique_from :
    (p : ℕ) (seen xs : List ℕ)
    → occurrences p (unique_from seen xs)
      ≡ (if includes seen p then 0 else if includes xs p then 1 else 0)
unfolding unique_from
occurrences-unique_from p seen [] = ground arith
occurrences-unique_from p seen (x ∷ xs) = elim (Bool-cases (x == p)) [
  | inl y ↦
      let e : x ≡ p = (==_iff x p).0 y in
      ground (
        arith,
        occurrences-unique_from p seen xs,
        occurrences-unique_from p (x ∷ seen) xs,
        e,
        ap (includes seen) e,
      )
  | inr n ↦
      ground (arith, n, occurrences-unique_from p seen xs, occurrences-unique_from p (x ∷ seen) xs)
]

-- If all rows of a list are of one user, the projects of the rows are those with a row of the user.
includes-project_ids :
    (user : ℕ) (ms : List ProjectMember) (p : ℕ)
    → ((q u : ℕ) → has_member q u ms ≡ true → u ≡ user)
    → includes (map (λ m. m.project_id) ms) p ≡ has_member p user ms
includes-project_ids user [] p h = refl
includes-project_ids user (m ∷ ms) p h =
    let same : m.user_id ≡ user = h m.project_id m.user_id (ground arith) in
    ground (arith, same, includes-project_ids user ms p (λ q u e. h q u (ground (arith, e))))

module _ (w : World) (db : FindMany w) (user p : ℕ) where
  includes-find_members :
      includes (map (λ m. m.project_id) (db.find_members (is_direct w user))) p
      ≡ live_project (w.project p) (λ q. is_some (w.project_member p user))
  unfolding is_direct
  includes-find_members =
      includes-project_ids user (db.find_members (is_direct w user)) p
        (λ q u e. ground (arith, e, db.has_member-find_members (is_direct w user) q u))
      ∙ db.has_member-find_members (is_direct w user) p user
      ∙ ground arith

  -- The list of a user's accessible projects has a project once if canAccessProject is true of
  -- the user and the project, and not at all otherwise.
  pub occurrences-get_accessible_project_ids :
      occurrences p (get_accessible_project_ids w db user)
      ≡ (if can_access_project w user p then 1 else 0)
  unfolding get_accessible_project_ids can_access_project is_of_organization
  occurrences-get_accessible_project_ids = ground (
    arith,
    occurrences-unique_from p [] (
        map (λ m. m.project_id) (db.find_members (is_direct w user))
        ++ db.find_projects (is_of_organization w user)),
    includes-append p (map (λ m. m.project_id) (db.find_members (is_direct w user)))
        (db.find_projects (is_of_organization w user)),
    includes-find_members,
    db.includes-find_projects (is_of_organization w user) p,
  )
