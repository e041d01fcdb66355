-- ===== src/Api/Routes.antt =====
-- RegisterRoutes of internal/api/router.go. gin is not in the repository: how it matches a path with a
-- route is a parameter, and a path is the list of its segments.
use mini_bk.Prelude.{
  String, List, [], ◌∷◌, ◌++◌, Option, none, some, Bool, true, false, ◌≡◌, refl, ◌∙◌, if◌then◌else◌,
  str_eq,
}

pub data Method : Type 0 where
  get post : Method

pub data Handler : Type 0 where
  create_task list_tasks get_task cancel_task rerun_task get_task_log stream_task_log : Handler
  list_nodes get_node drain_node uncordon_node : Handler
  get_resources get_stats get_daily_stats : Handler

pub data Segment : Type 0 where
  fixed : String → Segment
  param : Segment

pub record Route : Type 0 where
  pub method : Method
  pub path : List Segment
  pub handler : Handler

abbrev grouped : List Segment → List Route → List Route
grouped prefix [] = []
grouped prefix (r ∷ rs) = record r { path = prefix ++ r.path } ∷ grouped prefix rs

abbrev route : Method → List Segment → Handler → Route
route m p h = record { method = m; path = p; handler = h }

task_routes : List Route
task_routes =
    route post [] create_task
    ∷ route get [] list_tasks
    ∷ route get (param ∷ []) get_task
    ∷ route post (param ∷ fixed "cancel" ∷ []) cancel_task
    ∷ route post (param ∷ fixed "rerun" ∷ []) rerun_task
    ∷ route get (param ∷ fixed "log" ∷ []) get_task_log
    ∷ route get (param ∷ fixed "log" ∷ fixed "stream" ∷ []) stream_task_log
    ∷ []

node_routes : List Route
node_routes =
    route get [] list_nodes
    ∷ route get (param ∷ []) get_node
    ∷ route post (param ∷ fixed "drain" ∷ []) drain_node
    ∷ route post (param ∷ fixed "uncordon" ∷ []) uncordon_node
    ∷ []

unfoldable pub register_routes : List Route
unfolding task_routes node_routes
register_routes = grouped (fixed "api" ∷ fixed "v1" ∷ []) (
    grouped (fixed "tasks" ∷ []) task_routes
    ++ (grouped (fixed "nodes" ∷ []) node_routes
        ++ (route get (fixed "resources" ∷ []) get_resources
            ∷ route get (fixed "stats" ∷ []) get_stats
            ∷ route get (fixed "stats" ∷ fixed "daily" ∷ []) get_daily_stats
            ∷ [])))

-- The parameters of a path that matches: a fixed segment stands for itself, a parameter for one segment
-- that is not empty.
abbrev bound : String → Option (List String) → Option (List String)
bound s none = none
bound s (some more) = some (s ∷ more)

unfoldable pub matched : List Segment → List String → Option (List String)
matched [] [] = some []
matched [] (s ∷ ss) = none
matched (p ∷ ps) [] = none
matched (fixed w ∷ ps) (s ∷ ss) = let rest = matched ps ss in if str_eq w s then rest else none
matched (param ∷ ps) (s ∷ ss) =
    let rest = matched ps ss in if str_eq s "" then none else bound s rest

same_method : Method → Method → Bool
same_method get get = true
same_method post post = true
same_method _ _ = false

abbrev added :
    Bool
    → Handler
    → Option (List String)
    → List (Handler × List String)
    → List (Handler × List String)
added true h (some ps) more = (h, ps) ∷ more
added _ h _ more = more

-- What gin is documented to do.
unfoldable pub IsMatcher : (List Segment → List String → Option (List String)) → Type 0
unfolding matched
IsMatcher gin =
    (gin [] [] ≡ some [])
    × ((s : String) (ss : List String) → gin [] (s ∷ ss) ≡ none)
    × ((p : Segment) (ps : List Segment) → gin (p ∷ ps) [] ≡ none)
    × ((w s : String) (ps : List Segment) (ss : List String)
        → gin (fixed w ∷ ps) (s ∷ ss) ≡ (if str_eq w s then gin ps ss else none))
    × ((s : String) (ps : List Segment) (ss : List String)
        → gin (param ∷ ps) (s ∷ ss) ≡ (if str_eq s "" then none else bound s (gin ps ss)))

-- All routes that a request matches.
pub routed :
    (List Segment → List String → Option (List String))
    → Method
    → List String
    → List Route
    → List (Handler × List String)
unfolding same_method
routed gin m path [] = []
routed gin m path (r ∷ rs) =
    added (same_method r.method m) r.handler (gin r.path path) (routed gin m path rs)

-- The method and the path with which the console (web/src/api/tasks.ts, nodes.ts, stats.ts and
-- web/src/hooks/useSSE.ts) and, for the resources, docs/context.md ask for each handler, for the id of
-- a task or a node.
pub method_of : Handler → Method
method_of create_task = post
method_of cancel_task = post
method_of rerun_task = post
method_of drain_node = post
method_of uncordon_node = post
method_of _ = get

rest_of : Handler → String → List String
rest_of create_task id = "tasks" ∷ []
rest_of list_tasks id = "tasks" ∷ []
rest_of get_task id = "tasks" ∷ id ∷ []
rest_of cancel_task id = "tasks" ∷ id ∷ "cancel" ∷ []
rest_of rerun_task id = "tasks" ∷ id ∷ "rerun" ∷ []
rest_of get_task_log id = "tasks" ∷ id ∷ "log" ∷ []
rest_of stream_task_log id = "tasks" ∷ id ∷ "log" ∷ "stream" ∷ []
rest_of list_nodes id = "nodes" ∷ []
rest_of get_node id = "nodes" ∷ id ∷ []
rest_of drain_node id = "nodes" ∷ id ∷ "drain" ∷ []
rest_of uncordon_node id = "nodes" ∷ id ∷ "uncordon" ∷ []
rest_of get_resources id = "resources" ∷ []
rest_of get_stats id = "stats" ∷ []
rest_of get_daily_stats id = "stats" ∷ "daily" ∷ []

pub path_of : Handler → String → List String
unfolding rest_of
path_of h id = "api" ∷ "v1" ∷ rest_of h id

-- The parameter, where the handler has one.
pub params_of : Handler → String → List String
params_of create_task id = []
params_of list_tasks id = []
params_of list_nodes id = []
params_of get_resources id = []
params_of get_stats id = []
params_of get_daily_stats id = []
params_of _ id = id ∷ []

routed-one :
    (h : Handler) (id : String)
    → str_eq id "" ≡ false
    → routed matched (method_of h) (path_of h id) register_routes ≡ (h, params_of h id) ∷ []
unfolding routed matched same_method method_of path_of params_of register_routes
routed-one create_task id full = refl
routed-one list_tasks id full = refl
routed-one get_task id full = rw full refl
routed-one cancel_task id full = rw full refl
routed-one rerun_task id full = rw full refl
routed-one get_task_log id full = rw full refl
routed-one stream_task_log id full = rw full refl
routed-one list_nodes id full = refl
routed-one get_node id full = rw full refl
routed-one drain_node id full = rw full refl
routed-one uncordon_node id full = rw full refl
routed-one get_resources id full = refl
routed-one get_stats id full = refl
routed-one get_daily_stats id full = refl

module _ (gin : List Segment → List String → Option (List String)) (laws : IsMatcher gin) where
  gin-matched : (ps : List Segment) (ss : List String) → gin ps ss ≡ matched ps ss
  unfolding matched IsMatcher
  gin-matched [] [] = laws.0
  gin-matched [] (s ∷ ss) = laws.1 s ss
  gin-matched (p ∷ ps) [] = laws.2 p ps
  gin-matched (fixed w ∷ ps) (s ∷ ss) = laws.3 w s ps ss ∙ rw (gin-matched ps ss) refl
  gin-matched (param ∷ ps) (s ∷ ss) = laws.4 s ps ss ∙ rw (gin-matched ps ss) refl

  routed-matched :
      (m : Method) (path : List String) (rs : List Route)
      → routed gin m path rs ≡ routed matched m path rs
  unfolding routed
  routed-matched m path [] = refl
  routed-matched m path (r ∷ rs) = rw (gin-matched r.path path, routed-matched m path rs) refl

  -- A request with the method and the path with which the console or docs/context.md ask for a handler,
  -- for any id but the empty one, matches exactly one of the routes, and it is the one of this handler, with the id as its parameter.
  pub routed-path_of :
      (h : Handler) (id : String)
      → str_eq id "" ≡ false
      → routed gin (method_of h) (path_of h id) register_routes ≡ (h, params_of h id) ∷ []
  routed-path_of h id full =
      routed-matched (method_of h) (path_of h id) register_routes ∙ routed-one h id full
