-- ===== src/Auth/Rbac/Watcher.antt =====
-- auth/rbac/rbac.go: the authorizer that reloads its policy file. `decode` is json.Unmarshal into a
-- Policy; a read of the file gives its bytes, or `none` for an error. The atomic pointer is a
-- field, `none` while nothing is stored; the ticks of the reload loop are the list of reads.
use zara_rpc.Common.{
  subst, ◌≡◌, refl, sym, ap, ◌∙◌, ◌≢◌, inl, inr, Bool, true, false, Option, none, some, List, [],
  ◌∷◌, Text, text_eq, text_eq_iff, is_empty, arith, if◌then◌else◌, Bool-cases,
}
use zara_rpc.Common.Result.{Result, ok, err}
use zara_rpc.Auth.Rbac.{Ctx, Net, Policy, is_authorized}

pub data WatchError : Type 0 where
  parse_policy_failed missing_name read_failed empty_path bad_refresh : WatchError

pub record FileWatcherOptions : Type 0 where
  pub policy_file : Text
  pub refresh_is_positive : Bool

-- `FileWatcherAuthorizer`, with the documents that `OnPolicyUpdate` was called with, latest first.
pub record Watcher : Type 0 where
  pub current : Option Policy
  pub last : Text
  pub updates : List Text

module _ (decode : Text → Option Policy) where
  -- `parsePolicy`, and `NewStatic` behind it
  unfoldable pub parse_policy : Text → Result WatchError Policy
  parse_policy json = elim (decode json) [
    | none ↦ err parse_policy_failed
    | some p ↦ if is_empty p.name then err missing_name else ok p
  ]

  unfoldable pub store : Watcher → Text → Result WatchError Policy → Watcher × Option WatchError
  store w json (err e) = (w, some e)
  store w json (ok p) = (record { current = some p; last = json; updates = json ∷ w.updates }, none)

  -- `reload`: the new state, and the error that it returns.
  unfoldable pub reload : Watcher → Option Text → Watcher × Option WatchError
  unfolding store
  reload w none = (w, some read_failed)
  reload w (some json) = if text_eq w.last json then (w, none) else store w json (parse_policy json)

  -- The loop `run` over the reads at its ticks; errors are dropped.
  unfoldable pub run : Watcher → List (Option Text) → Watcher
  run w [] = w
  run w (r ∷ rs) = run (reload w r).0 rs

  abbrev pub fresh : Watcher
  fresh = record { current = none; last = []; updates = [] }

  abbrev pub started : Watcher × Option WatchError → Result WatchError Watcher
  started (w, none) = ok w
  started (w, some e) = err e

  -- `NewFileWatcherWithOptions`, with the first read of the file
  unfoldable pub new_file_watcher : FileWatcherOptions → Option Text → Result WatchError Watcher
  unfolding reload
  new_file_watcher options first =
      if is_empty options.policy_file
      then err empty_path
      else if options.refresh_is_positive
      then started (reload fresh first)
      else err bad_refresh

  -- `FileWatcherAuthorizer.IsAuthorized`; `none` is the nil dereference.
  unfoldable pub watcher_is_authorized : Net → Ctx → Watcher → Option Bool
  watcher_is_authorized net ctx w = elim w.current [
    | none ↦ none
    | some p ↦ some (is_authorized net ctx p)
  ]

  abbrev pub pick : Policy → Result WatchError Policy → Policy
  pick p (ok q) = q
  pick p (err e) = p

  -- The policy of the last read that gave one, `p` if none did.
  pub latest : Policy → List (Option Text) → Policy
  latest p [] = p
  latest p (none ∷ rs) = latest p rs
  latest p (some json ∷ rs) = latest (pick p (parse_policy json)) rs

  -- The stored policy is `p`, and it is the one of the bytes last stored.
  pub record IsCurrent (p : Policy) (w : Watcher) : Type 0 where
    pub current : w.current ≡ some p
    pub parsed : parse_policy w.last ≡ ok p

  store-IsCurrent :
      (p : Policy) (w : Watcher) (json : Text) (r : Result WatchError Policy)
      → parse_policy json ≡ r
      → IsCurrent p w
      → IsCurrent (pick p r) (store w json r).0
  unfolding store
  store-IsCurrent p w json (ok q) e h = record { current = refl; parsed = e }
  store-IsCurrent p w json (err x) e h = h

  reload-IsCurrent :
      (p : Policy) (w : Watcher) (json : Text)
      → IsCurrent p w
      → IsCurrent (pick p (parse_policy json)) (reload w (some json)).0
  unfolding reload
  reload-IsCurrent p w json h = elim (Bool-cases (text_eq w.last json)) [
    | inl same ↦
        let e : parse_policy json ≡ ok p =
          subst (λ t. parse_policy t ≡ ok p) ((text_eq_iff w.last json).0 same) h.parsed in
        rw same (subst (λ t. IsCurrent (pick p t) w) (sym e) h)
    | inr other ↦ rw other (store-IsCurrent p w json (parse_policy json) refl h)
  ]

  reload-unread : (p : Policy) (w : Watcher) → IsCurrent p w → IsCurrent p (reload w none).0
  unfolding reload
  reload-unread p w h = h

  run-IsCurrent :
      (p : Policy) (w : Watcher) (rs : List (Option Text))
      → IsCurrent p w
      → IsCurrent (latest p rs) (run w rs)
  unfolding run latest
  run-IsCurrent p w [] h = h
  run-IsCurrent p w (none ∷ rs) h = run-IsCurrent p (reload w none).0 rs (reload-unread p w h)
  run-IsCurrent p w (some json ∷ rs) h =
      run-IsCurrent (pick p (parse_policy json)) (reload w (some json)).0 rs
        (reload-IsCurrent p w json h)

  started-store :
      (w : Watcher) (json : Text) (r : Result WatchError Policy)
      → parse_policy json ≡ r
      → started (store fresh json r) ≡ ok w
      → (p : Policy) × (parse_policy json ≡ ok p) × IsCurrent p w
  unfolding store
  started-store w json (ok q) e h =
      let same : record { current = some q; last = json; updates = json ∷ [] } ≡ w = ground arith in
      (q, e, rw (← same) (record { current = refl; parsed = e }))
  started-store w json (err x) e h = cc

  reload-changed :
      (w : Watcher) (json : Text)
      → text_eq w.last json ≡ false
      → reload w (some json) ≡ store w json (parse_policy json)
  unfolding reload
  reload-changed w json e = rw e refl

  started-reload :
      (json : Text) (w : Watcher)
      → json ≢ []
      → started (reload fresh (some json)) ≡ ok w
      → (p : Policy) × (parse_policy json ≡ ok p) × IsCurrent p w
  started-reload json w filled h = elim (Bool-cases (text_eq [] json)) [
    | inl e ↦ absurd (filled (sym ((text_eq_iff [] json).0 e)))
    | inr e ↦
        started-store w json (parse_policy json) refl
          (ap started (sym (reload-changed fresh json e)) ∙ h)
  ]

  -- `NewFileWatcherWithOptions` succeeds only after the first reload did.
  new_file_watcher-started :
      (options : FileWatcherOptions) (r : Option Text) (w : Watcher)
      → new_file_watcher options r ≡ ok w
      → started (reload fresh r) ≡ ok w
  unfolding new_file_watcher
  new_file_watcher-started options r w h = elim (Bool-cases (is_empty options.policy_file)) [
    | inl e ↦ absurd (cc (rw e at h))
    | inr e ↦ elim (Bool-cases options.refresh_is_positive) [
      | inl k ↦ (rw (e, k) at h)
      | inr k ↦ absurd (cc (rw (e, k) at h))
    ]
  ]

  -- A watcher that started on a file that was not empty always has a policy: the one of the last
  -- read that succeeded and parsed. Reads that fail, and bytes that are no policy, change nothing.
  pub run-latest :
      (options : FileWatcherOptions) (json : Text) (w : Watcher) (rs : List (Option Text))
      → json ≢ []
      → new_file_watcher options (some json) ≡ ok w
      → (p : Policy) × (parse_policy json ≡ ok p) × ((run w rs).current ≡ some (latest p rs))
  run-latest options json w rs filled h =
      let (p, e, c) =
        started-reload json w filled (new_file_watcher-started options (some json) w h) in
      (p, e, (run-IsCurrent p w rs c).current)

  -- An empty policy file is no error for the constructor: with options that it takes, it returns a
  -- watcher without a policy, on which `IsAuthorized` dereferences nil.
  pub new_file_watcher-empty_file :
      (options : FileWatcherOptions) (net : Net) (ctx : Ctx)
      → is_empty options.policy_file ≡ false
      → options.refresh_is_positive ≡ true
      → (w : Watcher) × (new_file_watcher options (some []) ≡ ok w)
        × (watcher_is_authorized net ctx w ≡ none)
  unfolding new_file_watcher watcher_is_authorized reload
  new_file_watcher-empty_file options net ctx e k = (fresh, rw (e, k), refl)
