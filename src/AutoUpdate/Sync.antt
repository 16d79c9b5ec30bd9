-- ===== src/AutoUpdate/Sync.antt =====
-- pkg/services/auto_update_service.go: `StartPeriodicSync`, `StopPeriodicSync` and the goroutines
-- that they start and stop. Channels are numbered as they are made, the constructor's being 0. A
-- goroutine waits in its `select` on the channel that the field held when it got there, or is on
-- the way to it: `checking` is one that has just started or runs `CheckForUpdates`.
use mcp_operator.Prelude.{
  ℕ, zero, suc, ◌+◌, String, ◌≡◌, refl, sym, subst, ◌≢◌, ◌⊎◌, inl, inr, Bool, true, false, ◌||◌,
  Option, none, some, List, [], ◌∷◌, arith, eqb, eqb→eq, replicate, all,
}

pub data Worker : Type 0 where
  selecting : (channel : ℕ) → Worker
  checking : Worker

pub record SyncState : Type 0 where
  pub is_running : Bool
  pub stop_chan : ℕ
  pub closed : List ℕ
  pub workers : List Worker

abbrev pub new_sync : SyncState
new_sync = record { is_running = false; stop_chan = 0; closed = []; workers = [] }

-- `StartPeriodicSync`, with its error, by whether the sync is running.
unfoldable pub start_if : (running : Bool) → SyncState → SyncState × Option String
start_if true s = (s, some "periodic sync is already running")
start_if false s = (
  record {
    is_running = true;
    stop_chan = s.stop_chan + 1;
    closed = s.closed;
    workers = checking ∷ s.workers;
  },
  none,
)

unfoldable pub start_periodic_sync : SyncState → SyncState × Option String
unfolding start_if
start_periodic_sync s = start_if s.is_running s

-- `StopPeriodicSync`, likewise.
unfoldable pub stop_if : (running : Bool) → SyncState → SyncState
stop_if true s = record s { is_running = false; closed = s.stop_chan ∷ s.closed }
stop_if false s = s

unfoldable pub stop_periodic_sync : SyncState → SyncState
unfolding stop_if
stop_periodic_sync s = stop_if s.is_running s

abbrev pub holds_channel : List ℕ → ℕ → Bool
holds_channel [] c = false
holds_channel (d ∷ ds) c = eqb d c || holds_channel ds c

-- What one goroutine does next: the ticker fires, it gets to its `select` and reads the field, or
-- the channel that it waits on is closed and it returns.
pub data Move (stop_chan : ℕ) (closed : List ℕ) : List Worker → List Worker → Type 0 where
  ticked : (c : ℕ) (ws : List Worker) → Move stop_chan closed (selecting c ∷ ws) (checking ∷ ws)
  checked : (ws : List Worker) → Move stop_chan closed (checking ∷ ws) (selecting stop_chan ∷ ws)
  quit :
      (c : ℕ) (ws : List Worker)
      → holds_channel closed c ≡ true
      → Move stop_chan closed (selecting c ∷ ws) ws
  other :
      (w : Worker) (ws vs : List Worker)
      → Move stop_chan closed ws vs
      → Move stop_chan closed (w ∷ ws) (w ∷ vs)

pub data Reachable : SyncState → Type 0 where
  constructed : Reachable new_sync
  started : (s : SyncState) → Reachable s → Reachable (start_periodic_sync s).0
  stopped : (s : SyncState) → Reachable s → Reachable (stop_periodic_sync s)
  moved :
      (s : SyncState) (ws : List Worker)
      → Reachable s
      → Move s.stop_chan s.closed s.workers ws
      → Reachable (record s { workers = ws })

-- A goroutine waits on the channel of the field or on a closed one.
abbrev pub is_served : ℕ → List ℕ → Worker → Bool
is_served current closed checking = true
is_served current closed (selecting c) = eqb current c || holds_channel closed c

-- A goroutine that waits can return.
abbrev pub can_quit : List ℕ → Worker → Bool
can_quit closed checking = true
can_quit closed (selecting c) = holds_channel closed c

record Served (s : SyncState) : Type 0 where
  pub served : all (is_served s.stop_chan s.closed) s.workers ≡ true
  pub stopped_well :
      (s.is_running ≡ true) ⊎ (holds_channel s.closed s.stop_chan ≡ true) ⊎ (s.workers ≡ [])

eqb_same : (n : ℕ) → eqb n n ≡ true
eqb_same n = ground arith

Move-served :
    (current : ℕ) (closed : List ℕ) (ws vs : List Worker)
    → Move current closed ws vs
    → all (is_served current closed) ws ≡ true
    → all (is_served current closed) vs ≡ true
Move-served current closed _ _ (ticked c ws) h = ground arith
Move-served current closed _ _ (checked ws) h = ground (arith, eqb_same current)
Move-served current closed _ _ (quit c ws e) h = ground arith
Move-served current closed _ _ (other w ws vs m) h =
    ground (arith, Move-served current closed ws vs m)

-- Where the channel of the field is closed, so are those of all goroutines.
served-quit :
    (current : ℕ) (closed : List ℕ) (ws : List Worker)
    → holds_channel closed current ≡ true
    → all (is_served current closed) ws ≡ true
    → all (can_quit closed) ws ≡ true
served-quit current closed [] h k = refl
served-quit current closed (checking ∷ ws) h k = served-quit current closed ws h k
served-quit current closed (selecting c ∷ ws) h k =
    ground (arith, served-quit current closed ws h, eqb→eq current c)

quit-served :
    (current : ℕ) (closed : List ℕ) (ws : List Worker)
    → all (can_quit closed) ws ≡ true
    → all (is_served current closed) ws ≡ true
quit-served current closed [] h = refl
quit-served current closed (checking ∷ ws) h = quit-served current closed ws h
quit-served current closed (selecting c ∷ ws) h = ground (arith, quit-served current closed ws)

closed-served :
    (current : ℕ) (closed : List ℕ) (ws : List Worker)
    → all (is_served current closed) ws ≡ true
    → all (is_served current (current ∷ closed)) ws ≡ true
closed-served current closed [] h = refl
closed-served current closed (checking ∷ ws) h = closed-served current closed ws h
closed-served current closed (selecting c ∷ ws) h = ground (arith, closed-served current closed ws)

quit_all :
    (s : SyncState) → Served s → s.is_running ≡ false → all (can_quit s.closed) s.workers ≡ true
quit_all s h k = elim h.stopped_well [
  | inl on ↦ absurd (ground arith)
  | inr off ↦ elim off [
    | inl shut ↦ served-quit s.stop_chan s.closed s.workers shut h.served
    | inr empty ↦ subst (λ ws. all (can_quit s.closed) ws ≡ true) (sym empty) refl
  ]
]

start_if-Served : (b : Bool) (s : SyncState) → s.is_running ≡ b → Served s → Served (start_if b s).0
unfolding start_if
start_if-Served true s e h = h
start_if-Served false s e h = record {
  served = ground (
    arith,
    eqb_same (s.stop_chan + 1),
    quit-served (s.stop_chan + 1) s.closed s.workers (quit_all s h e),
  );
  stopped_well = inl refl;
}

stop_if-Served : (b : Bool) (s : SyncState) → s.is_running ≡ b → Served s → Served (stop_if b s)
unfolding stop_if
stop_if-Served true s e h = record {
  served = closed-served s.stop_chan s.closed s.workers h.served;
  stopped_well = inr (inl (ground (arith, eqb_same s.stop_chan)));
}
stop_if-Served false s e h = h

Move-some :
    (current : ℕ) (closed : List ℕ) (ws vs : List Worker) → Move current closed ws vs → ws ≢ []
Move-some current closed _ _ (ticked c ws) e = cc
Move-some current closed _ _ (checked ws) e = cc
Move-some current closed _ _ (quit c ws k) e = cc
Move-some current closed _ _ (other w ws vs m) e = cc

Move-Served :
    (s : SyncState) (ws : List Worker)
    → Move s.stop_chan s.closed s.workers ws
    → Served s
    → Served (record s { workers = ws })
Move-Served s ws m h = record {
  served = Move-served s.stop_chan s.closed s.workers ws m h.served;
  stopped_well = elim h.stopped_well [
    | inl on ↦ inl on
    | inr off ↦ elim off [
      | inl shut ↦ inr (inl shut)
      | inr empty ↦ absurd (Move-some s.stop_chan s.closed s.workers ws m empty)
    ]
  ];
}

Reachable-Served : (s : SyncState) → Reachable s → Served s
unfolding start_periodic_sync stop_periodic_sync
Reachable-Served _ constructed = record { served = refl; stopped_well = inr (inr refl) }
Reachable-Served _ (started s r) = start_if-Served s.is_running s refl (Reachable-Served s r)
Reachable-Served _ (stopped s r) = stop_if-Served s.is_running s refl (Reachable-Served s r)
Reachable-Served _ (moved s ws r m) = Move-Served s ws m (Reachable-Served s r)

-- In every state that starts, stops and moves of the goroutines lead to, while the sync is not
-- running every goroutine that waits can return.
pub stopped-can_quit :
    (s : SyncState) → Reachable s → s.is_running ≡ false → all (can_quit s.closed) s.workers ≡ true
stopped-can_quit s r h = quit_all s (Reachable-Served s r) h

-- The running state with n goroutines out of their select and one in it.
abbrev pub crowded : (current : ℕ) → List ℕ → ℕ → SyncState
crowded current closed n = record {
  is_running = true;
  stop_chan = current;
  closed = closed;
  workers = selecting current ∷ replicate n checking;
}

abbrev pub closed_after : ℕ → List ℕ
closed_after zero = []
closed_after (suc n) = (n + 1) ∷ closed_after n

-- For every n there is a reachable state in which the sync is running, n goroutines are not in
-- their select, one more waits on the channel of the field, and the channels 1 to n are closed.
pub crowded-Reachable : (n : ℕ) → Reachable (crowded (n + 1) (closed_after n) n)
unfolding start_periodic_sync stop_periodic_sync
crowded-Reachable zero =
    moved (start_periodic_sync new_sync).0 (selecting 1 ∷ []) (started new_sync constructed)
      (checked [])
crowded-Reachable (suc n) =
    let r = crowded-Reachable n in
    let busy = record (crowded (n + 1) (closed_after n) n) {
      workers = replicate (suc n) checking;
    } in
    let left =
      moved (crowded (n + 1) (closed_after n) n) (replicate (suc n) checking) r
        (ticked (n + 1) (replicate n checking)) in
    let again = started (stop_periodic_sync busy) (stopped busy left) in
    subst (λ k. Reachable (crowded (k + 1) (closed_after (suc n)) (suc n))) (omega arith)
      (moved (start_periodic_sync (stop_periodic_sync busy)).0
        (selecting (n + 1 + 1) ∷ replicate (suc n) checking) again
        (checked (replicate (suc n) checking)))
