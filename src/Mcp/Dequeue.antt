-- ===== src/Mcp/Dequeue.antt =====
-- The blocking `Dequeue` of internal/mcp/queue.go, in steps: one goroutine is in `Dequeue`, its helper is in
-- `cond.Wait`, and others call `Enqueue`. Go lets any goroutine unlock a mutex that is locked, and ends the
-- program when one that is not locked is unlocked.
pub mod Cancelling
use m365_copilot2api.Prelude.{[], true, false, List, Bool, if◌then◌else◌, ◌∷◌, ◌++◌}
use m365_copilot2api.Mcp.{PendingToolCall}

-- Where the call of `Dequeue` is.
pub data Phase : Type 0 where
  outside checking selecting gone : Phase
  took : PendingToolCall → Phase

-- The goroutine that waits: it is there or not, it has not yet called `Wait`, it waits, it was woken and
-- wants the mutex, or it has the mutex and has closed its channel.
pub data Helper : Type 0 where
  absent starting waiting woken closed : Helper

pub record Blocked : Type 0 where
  pub pending : List PendingToolCall
  pub locked : Bool
  pub phase : Phase
  pub helper : Helper
  pub crashed : Bool

abbrev pub unblocked : List PendingToolCall → Blocked
unblocked calls = record {
  pending = calls;
  locked = false;
  phase = outside;
  helper = absent;
  crashed = false;
}

-- `mu.Unlock`, of whoever.
abbrev pub unlock : Blocked → Blocked
unlock s = if s.locked then record s { locked = false } else record s { crashed = true }

pub data Action : Type 0 where
  enters looks waits relocks resumes cancels : Action
  adds : PendingToolCall → Action

-- `for len(q.pending) == 0`: a call is taken, or a helper is started.
unfoldable pub look : List PendingToolCall → Phase → Blocked → Blocked
look [] checking s = record s { phase = selecting; helper = starting }
look (c ∷ cs) checking s = unlock (record s { pending = cs; phase = took c })
look cs p s = s

-- `cond.Wait` up to the sleep: the mutex is unlocked.
unfoldable pub begin_wait : Helper → Blocked → Blocked
begin_wait starting s = unlock (record s { helper = waiting })
begin_wait h s = s

-- `Broadcast`.
abbrev pub wake : Helper → Helper
wake waiting = woken
wake h = h

-- `cond.Wait` after the sleep, and `close(ch)`; the mutex must be free.
unfoldable pub relock : Helper → Bool → Blocked → Blocked
relock woken false s = record s { locked = true; helper = closed }
relock h l s = s

-- The two cases of the `select`.
unfoldable pub resume : Phase → Helper → Blocked → Blocked
resume selecting closed s = record s { phase = checking; helper = absent }
resume p h s = s

unfoldable pub cancel : Phase → Blocked → Blocked
cancel selecting s = unlock (record s { phase = gone })
cancel p s = s

unfoldable pub enter : Phase → Bool → Blocked → Blocked
enter outside false s = record s { locked = true; phase = checking }
enter p l s = s

-- `Enqueue` of another goroutine, once the mutex is free.
unfoldable pub put : PendingToolCall → Bool → Blocked → Blocked
put c false s = record s { pending = s.pending ++ c ∷ []; helper = wake s.helper }
put c true s = s

-- A step that cannot be taken changes nothing.
unfoldable pub act : Action → Blocked → Blocked
unfolding enter look begin_wait relock resume cancel put
act enters s = enter s.phase s.locked s
act looks s = look s.pending s.phase s
act waits s = begin_wait s.helper s
act relocks s = relock s.helper s.locked s
act resumes s = resume s.phase s.helper s
act cancels s = cancel s.phase s
act (adds c) s = put c s.locked s

unfoldable pub act_all : List Action → Blocked → Blocked
unfolding act
act_all [] s = s
act_all (a ∷ os) s = act_all os (act a s)
