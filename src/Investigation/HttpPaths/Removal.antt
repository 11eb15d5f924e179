-- ===== src/Investigation/HttpPaths/Removal.antt =====
-- What is removed in every run, however it ends.
use mathlib.Core.List.{append_assoc, append-nil}
use cachelib_grpc_server.Common.{
  String, ◌==◌, eq_iff, ◌≡◌, refl, sym, ap, subst, ◌∙◌, Bool, true, false, Bool-cases, ◌⊎◌, inl,
  inr, List, [], ◌∷◌, ◌++◌, Result, ok, err, Place, here, there, Place-append-inv,
  Place-append_left, Place-append_right, arith,
}
use cachelib_grpc_server.Harness.Actions.{Action, pure, lift, continue, ◌>>=◌, modify, raise_when}
use cachelib_grpc_server.Investigation.HttpPaths.{
  Resources, path_of, stopped_after, origin_resources, Workload, workloads, Dir, fresh, ClientEnd,
  failed, reported, World, recorded, begun, described, with_result, with_error, start, start_all,
  ready, memory_of, measured_memory, concluded, measure, taken, retire, stop_all, measure_backend,
  body, reverse, remove_all, cleanup, cleaned, in_network, main,
}

-- Every container that was started is one to be removed or one that was.
abbrev Accounts : Dir → Type 0
Accounts d = (name : String) → Place name d.started → Place name d.active ⊎ Place name d.removed

-- An action after which that still holds, also where it raises.
data Keeps {A : Type 0} (m : Action Dir A) : Type 0 where
  keeps : ((d : Dir) → Accounts d → Accounts (m d).1) → Keeps m

held : {A : Type 0} {m : Action Dir A} → Keeps m → (d : Dir) → Accounts d → Accounts (m d).1
held (keeps k) = k

continue-keeps :
    {A B : Type 0} (r : Result String A) (f : A → Action Dir B) (d : Dir)
    → ((a : A) → Keeps (f a))
    → Accounts d
    → Accounts (continue r f d).1
continue-keeps (ok a) f d k h = held (k a) d h
continue-keeps (err e) f d k h = h

>>=-keeps :
    {A B : Type 0} {m : Action Dir A} {f : A → Action Dir B}
    → Keeps m
    → ((a : A) → Keeps (f a))
    → Keeps (m >>= f)
>>=-keeps {A} {B} {m} {f} k l = keeps (λ d h. continue-keeps (m d).0 f (m d).1 l (held k d h))

pure-keeps : {A : Type 0} (a : A) → Keeps (pure a)
pure-keeps a = keeps (λ d h. h)

lift-keeps : {A : Type 0} (r : Result String A) → Keeps (lift r)
lift-keeps r = keeps (λ d h. h)

raise_when-keeps : (b : Bool) (e : String) → Keeps (raise_when b e)
raise_when-keeps true e = keeps (λ d h. h)
raise_when-keeps false e = keeps (λ d h. h)

modify-keeps : (f : Dir → Dir) → ((d : Dir) → Accounts d → Accounts (f d)) → Keeps (modify f)
modify-keeps f k = keeps k

start-keeps : (w : World) (c : String × Resources) → Keeps (start w c)
start-keeps w (name, resources) =
    >>=-keeps (modify-keeps (recorded (name, resources)) (λ d h. h)) (λ _.
      >>=-keeps (lift-keeps (w.run name))
        (λ _. modify-keeps (begun name) (λ d h n m. added d h n m)))
  where
    added :
        (d : Dir)
        → Accounts d
        → (n : String) → Place n (d.started ++ name ∷ [])
        → Place n (d.active ++ name ∷ []) ⊎ Place n d.removed
    added d h n m = elim (Place-append-inv d.started (name ∷ []) m) [
      | inl p ↦ elim (h n p) [
        | inl a ↦ inl (Place-append_left d.active (name ∷ []) a)
        | inr r ↦ inr r
      ]
      | inr p ↦ inl (Place-append_right d.active (name ∷ []) p)
    ]

start_all-keeps : (w : World) (cs : List (String × Resources)) → Keeps (start_all w cs)
unfolding start_all
start_all-keeps w [] = pure-keeps tt
start_all-keeps w (c ∷ cs) = >>=-keeps (start-keeps w c) (λ _. start_all-keeps w cs)

memory_of-keeps : (w : World) (parts : List String) → Keeps (memory_of w parts)
unfolding memory_of
memory_of-keeps w [] = pure-keeps _
memory_of-keeps w (part ∷ parts) =
    >>=-keeps (lift-keeps (w.memory part))
      (λ b. >>=-keeps (memory_of-keeps w parts) (λ r. pure-keeps _))

measured_memory-keeps :
    (w : World) (equal : Bool) (parts : List String) → Keeps (measured_memory w equal parts)
measured_memory-keeps w false parts = pure-keeps _
measured_memory-keeps w true parts = >>=-keeps (memory_of-keeps w parts) (λ b. pure-keeps _)

concluded-keeps :
    (w : World) (equal : Bool) (backend : String) (load : Workload) (end : ClientEnd)
    → Keeps (concluded w equal backend load end)
concluded-keeps w equal backend load (failed text) =
    modify-keeps (with_error backend load text) (λ d h. h)
concluded-keeps w equal backend load (reported read) = >>=-keeps (lift-keeps read) (λ _.
    >>=-keeps (measured_memory-keeps w equal (stopped_after backend)) (λ b.
      >>=-keeps (modify-keeps (with_result backend load b) (λ d h. h))
        (λ _. lift-keeps (w.printed backend load))))

measure-keeps :
    (w : World) (equal : Bool) (backend : String) (loads : List Workload)
    → Keeps (measure w equal backend loads)
unfolding measure
measure-keeps w equal backend [] = pure-keeps tt
measure-keeps w equal backend (load ∷ loads) =
    >>=-keeps (lift-keeps (w.client backend load)) (λ end.
      >>=-keeps (concluded-keeps w equal backend load end)
        (λ _. measure-keeps w equal backend loads))

Place-taken :
    (name n : String) (xs : List String) → Place n xs → (n ≡ name) ⊎ Place n (taken name xs)
Place-taken name n [] m = elim m [ ]
Place-taken name n (x ∷ xs) here = elim (Bool-cases (x == name)) [
  | inl e ↦ inl (ground (arith, eq_iff x name))
  | inr e ↦ rw e (inr here)
]
Place-taken name n (x ∷ xs) (there m) =
    let rest = Place-taken name n xs m in
    elim (Bool-cases (x == name)) [
      | inl e ↦ rw e (inr m)
      | inr e ↦ elim rest [ inl s ↦ inl s | inr p ↦ rw e (inr (there p)) ]
    ]

retire-keeps : (w : World) (name : String) → Keeps (retire w name)
retire-keeps w name = keeps (λ d h. elim (Bool-cases (w.stops name)) [
  | inl s ↦ elim (Bool-cases (w.removes name)) [
    | inl r ↦ rw (s, r) (λ n m. moved d n (h n m))
    | inr r ↦ rw (s, r) h
  ]
  | inr s ↦ rw s h
])
  where
    moved :
        (d : Dir) (n : String)
        → Place n d.active ⊎ Place n d.removed
        → Place n (taken name d.active) ⊎ Place n (d.removed ++ name ∷ [])
    moved d n (inr r) = inr (Place-append_left d.removed (name ∷ []) r)
    moved d n (inl a) = elim (Place-taken name n d.active a) [
      | inl e ↦ inr (Place-append_right d.removed (name ∷ []) (rw e here))
      | inr p ↦ inl p
    ]

stop_all-keeps : (w : World) (names : List String) → Keeps (stop_all w names)
unfolding stop_all
stop_all-keeps w [] = pure-keeps tt
stop_all-keeps w (name ∷ names) = >>=-keeps (retire-keeps w name) (λ _. stop_all-keeps w names)

measure_backend-keeps :
    (w : World) (equal : Bool) (backend : String) → Keeps (measure_backend w equal backend)
unfolding measure_backend
measure_backend-keeps w equal backend = >>=-keeps (start_all-keeps w (path_of equal backend)) (λ _.
    >>=-keeps (lift-keeps (ready 40 0 (w.probe backend))) (λ _.
      >>=-keeps (measure-keeps w equal backend workloads)
        (λ _. stop_all-keeps w (stopped_after backend))))

body-keeps : (w : World) (equal : Bool) → Keeps (body w equal)
unfolding body
body-keeps w equal = >>=-keeps (start-keeps w ("origin", origin_resources equal)) (λ _.
    >>=-keeps (lift-keeps w.inspected) (λ _. >>=-keeps (modify-keeps described (λ d h. h)) (λ _.
      >>=-keeps (measure_backend-keeps w equal "nginx")
        (λ _. measure_backend-keeps w equal "grpc_adapter"))))

Place-reverse : (xs : List String) {n : String} → Place n xs → Place n (reverse xs)
Place-reverse [] m = elim m [ ]
Place-reverse (x ∷ xs) here = Place-append_right (reverse xs) (x ∷ []) here
Place-reverse (x ∷ xs) (there m) = Place-append_left (reverse xs) (x ∷ []) (Place-reverse xs m)

abbrev Responds : World → Type 0
Responds w = (name : String) → (w.stops name ≡ true) × (w.removes name ≡ true)

remove_all-removed :
    (w : World) (names : List String) (d : Dir)
    → Responds w
    → remove_all w names d ≡ (ok tt, record d { removed = d.removed ++ names })
unfolding remove_all
remove_all-removed w [] d h = rw (append-nil d.removed) refl
remove_all-removed w (name ∷ names) d h =
    rw ((h name).0, (h name).1)
      (remove_all-removed w names (record d { removed = d.removed ++ name ∷ [] }) h
        ∙ ap (λ r. (ok tt, record d { removed = r })) (append_assoc d.removed (name ∷ []) names))

-- The program ends as its body does, and removes all that it started.
abbrev pub IsClean : Result String (Unit {0}) → Result String (Unit {0}) × Dir → Type 0
IsClean ended out =
    (out.0 ≡ ended)
    × (out.1.network_removed ≡ true)
    × ((name : String) → Place name out.1.started → Place name out.1.removed)

cleaned-IsClean :
    (w : World) (r : Result String (Unit {0})) (d : Dir)
    → Responds w
    → w.network_removes ≡ true
    → Accounts d
    → IsClean r (cleaned w (r, d))
unfolding cleanup
cleaned-IsClean w r d h n kept =
    rw (remove_all-removed w (reverse d.active) d h, n)
      (
        refl,
        refl,
        λ name m. elim (kept name m) [
          | inl a ↦ Place-append_right d.removed (reverse d.active) (Place-reverse d.active a)
          | inr p ↦ Place-append_left d.removed (reverse d.active) p
        ],
      )

-- However the program ends once its network is there, and whatever its body raises: when Docker stops
-- and removes containers and the network in time, the program ends as its body does, the network is
-- removed, and so is every container that was started.
pub main-IsClean :
    (w : World) (equal : Bool)
    → w.network ≡ ok tt
    → ((name : String) → (w.stops name ≡ true) × (w.removes name ≡ true))
    → w.network_removes ≡ true
    → IsClean (body w equal fresh).0 (main w equal)
unfolding main
main-IsClean w equal n h r =
    let kept = held (body-keeps w equal) fresh (λ name m. elim m [ ]) in
    let clean = cleaned-IsClean w (body w equal fresh).0 (body w equal fresh).1 h r kept in
    subst (λ net. IsClean (body w equal fresh).0 (in_network w equal net)) (sym n) clean
