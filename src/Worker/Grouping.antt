-- ===== src/Worker/Grouping.antt =====
-- `routersWithActiveSessions` of backend/cmd/worker/main.go, against the sessions of each router.
use go_react_fihos.Common.{ℕ, ◌==◌, ◌≡◌, sym, any, Bool, List, [], ◌∷◌, ◌++◌, arith, if◌then◌else◌}
use mathlib.Core.List.{append-nil, append_assoc}
use go_react_fihos.Store.Sql.{select_rows, count_where}
use go_react_fihos.Store.Access.{Session}
use go_react_fihos.Worker.{RouterSessions, add_to_group, group}

-- The sessions that a grouping has for a router.
abbrev pub sessions_of : ℕ → List RouterSessions → List Session
sessions_of id [] = []
sessions_of id ((i, ss) ∷ groups) = if i == id then ss else sessions_of id groups

-- Where a router has no group yet, it gets one at the end.
add-sessions_of :
    (s : Session) (id : ℕ) (groups : List RouterSessions)
    → sessions_of id (add_to_group s groups)
      ≡ (if s.router_id == id then sessions_of id groups ++ s ∷ [] else sessions_of id groups)
add-sessions_of s id [] = ground arith
add-sessions_of s id ((i, ss) ∷ groups) = ground (arith, add-sessions_of s id groups)

group-sessions_of :
    (id : ℕ) (ss : List Session) (groups : List RouterSessions)
    → sessions_of id (group groups ss)
      ≡ sessions_of id groups ++ select_rows (λ s. s.router_id == id) ss
unfolding group
group-sessions_of id [] groups = sym (append-nil (sessions_of id groups))
group-sessions_of id (s ∷ ss) groups = ground (
  arith,
  group-sessions_of id ss (add_to_group s groups),
  add-sessions_of s id groups,
  append_assoc (sessions_of id groups) (s ∷ []) (select_rows (λ s. s.router_id == id) ss),
)

-- How many groups a router has.
abbrev pub groups_of : ℕ → List RouterSessions → ℕ
groups_of id groups = count_where (λ g. g.0 == id) groups

add-groups_of :
    (s : Session) (id : ℕ) (groups : List RouterSessions)
    → groups_of id (add_to_group s groups) ≡ (
        if s.router_id == id
        then if groups_of id groups == 0 then 1 else groups_of id groups
        else groups_of id groups)
add-groups_of s id [] = ground arith
add-groups_of s id ((i, ss) ∷ groups) = ground (arith, add-groups_of s id groups)

abbrev pub is_on : ℕ → Session → Bool
is_on id s = s.router_id == id

group-groups_of :
    (id : ℕ) (ss : List Session) (groups : List RouterSessions)
    → groups_of id (group groups ss) ≡ (
        if groups_of id groups == 0
        then if any (is_on id) ss then 1 else 0
        else groups_of id groups)
unfolding group
group-groups_of id [] groups = ground arith
group-groups_of id (s ∷ ss) groups =
    ground (arith, group-groups_of id ss (add_to_group s groups), add-groups_of s id groups)

-- A router has one group if it has a session, and none otherwise; its group is the list of its
-- sessions, in their order.
pub group_lem :
    (id : ℕ) (ss : List Session)
    → (sessions_of id (group [] ss) ≡ select_rows (is_on id) ss)
      × (groups_of id (group [] ss) ≡ (if any (is_on id) ss then 1 else 0))
group_lem id ss = (group-sessions_of id ss [], group-groups_of id ss [])
