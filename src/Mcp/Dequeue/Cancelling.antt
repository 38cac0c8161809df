-- ===== src/Mcp/Dequeue/Cancelling.antt =====
-- `Dequeue` of internal/mcp/queue.go with and without a context that is cancelled.
use m365_copilot2api.Prelude.{[], true, false, refl, List, Bool, All, ◌≡◌, not, ◌∷◌, arith}
use m365_copilot2api.Mcp.Dequeue.{
  Phase, Helper, Blocked, Action, outside, checking, selecting, took, absent, starting, waiting,
  woken, closed, cancels, enter, look, begin_wait, relock, resume, cancel, put, act, act_all,
  unblocked, enters, looks, waits, relocks, resumes, adds,
}
use m365_copilot2api.Mcp.{PendingToolCall}

abbrev is_cancel : Action → Bool
is_cancel cancels = true
is_cancel a = false

abbrev pub NoCancel : List Action → Type 0
NoCancel = All (λ a. is_cancel a ≡ false)

-- The phases go together: the mutex is locked while the loop looks at the queue, and until the helper waits;
-- it is free while the helper sleeps or wants it.
unfoldable pub is_coherent : Phase → Helper → Bool → Bool
is_coherent outside absent l = not l
is_coherent checking absent l = l
is_coherent (took c) absent l = not l
is_coherent selecting starting l = l
is_coherent selecting waiting l = not l
is_coherent selecting woken l = not l
is_coherent selecting closed l = l
is_coherent p h l = false

abbrev IsSound : Blocked → Type 0
IsSound s = (is_coherent s.phase s.helper s.locked ≡ true) × (s.crashed ≡ false)

is_coherent-start : is_coherent outside absent false ≡ true
unfolding is_coherent
is_coherent-start = refl

enter-IsSound : (s : Blocked) → IsSound s → IsSound (enter s.phase s.locked s)
unfolding enter is_coherent
enter-IsSound s h = ground arith

look-IsSound : (s : Blocked) → IsSound s → IsSound (look s.pending s.phase s)
unfolding look is_coherent
look-IsSound s h = ground arith

begin_wait-IsSound : (s : Blocked) → IsSound s → IsSound (begin_wait s.helper s)
unfolding begin_wait is_coherent
begin_wait-IsSound s h = ground arith

relock-IsSound : (s : Blocked) → IsSound s → IsSound (relock s.helper s.locked s)
unfolding relock is_coherent
relock-IsSound s h = ground arith

resume-IsSound : (s : Blocked) → IsSound s → IsSound (resume s.phase s.helper s)
unfolding resume is_coherent
resume-IsSound s h = ground arith

put-IsSound : (c : PendingToolCall) (s : Blocked) → IsSound s → IsSound (put c s.locked s)
unfolding put is_coherent
put-IsSound c s h = ground arith

act-IsSound : (a : Action) (s : Blocked) → is_cancel a ≡ false → IsSound s → IsSound (act a s)
unfolding act
act-IsSound enters s n h = enter-IsSound s h
act-IsSound looks s n h = look-IsSound s h
act-IsSound waits s n h = begin_wait-IsSound s h
act-IsSound relocks s n h = relock-IsSound s h
act-IsSound resumes s n h = resume-IsSound s h
act-IsSound cancels s n h = cc
act-IsSound (adds c) s n h = put-IsSound c s h

act_all-IsSound :
    (os : List Action) (s : Blocked) → NoCancel os → IsSound s → IsSound (act_all os s)
unfolding act_all
act_all-IsSound [] s n h = h
act_all-IsSound (a ∷ os) s (n, ns) h = act_all-IsSound os (act a s) ns (act-IsSound a s n h)

-- What a cancelled context does, by where the helper is. A helper that has not waited yet makes the program
-- crash itself when it begins.
abbrev pub Cancelled : Helper → Blocked → Type 0
Cancelled absent s = (act cancels s).crashed ≡ false
Cancelled starting s = (act waits (act cancels s)).crashed ≡ true
Cancelled waiting s = (act cancels s).crashed ≡ true
Cancelled woken s = (act cancels s).crashed ≡ true
Cancelled closed s = (act cancels s).crashed ≡ false

cancel-Cancelled : (h : Helper) (s : Blocked) → IsSound s → s.helper ≡ h → Cancelled h s
unfolding act cancel begin_wait is_coherent
cancel-Cancelled absent s sound e = ground arith
cancel-Cancelled starting s sound e = ground arith
cancel-Cancelled waiting s sound e = ground arith
cancel-Cancelled woken s sound e = ground arith
cancel-Cancelled closed s sound e = ground arith

-- Without a cancelled context, no run of `Dequeue` unlocks a mutex that is free. A context that is cancelled
-- after such a run does so at once while the helper waits or wants the mutex, and makes the helper do so
-- where it has yet to wait; it does no harm where no helper is there or the helper has closed its channel.
pub act_all-Cancelled :
    (calls : List PendingToolCall) (os : List Action)
    → NoCancel os
    → ((act_all os (unblocked calls)).crashed ≡ false)
      × Cancelled (act_all os (unblocked calls)).helper (act_all os (unblocked calls))
act_all-Cancelled calls os n =
    let s = act_all os (unblocked calls) in
    let sound = act_all-IsSound os (unblocked calls) n (is_coherent-start, refl) in
    (sound.1, cancel-Cancelled s.helper s sound refl)
