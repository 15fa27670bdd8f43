-- ===== src/Kernel/Event.antt =====
-- The services of an event flag, TNKernel/tn_event.c, but for tn_event_delete, which is in
-- Delete. A null pointer is `none`, patterns are 32-bit words. The tasks that wait are those of the queue of the system that
-- `wait_queue` names.
pub mod Scan
pub mod Release
use usb_bulk.Prelude.{
  ℕ, Bool, true, false, not, ◌&&◌, ◌||◌, Option, none, some, List, [], ◌∷◌, bit_and, bit_or, ◌==◌,
  has_bits, is_empty, remove, if◌then◌else◌, update,
}
use usb_bulk.Kernel.Code.{Code, no_err, wrong_param, noexs, wcontext, iluse}
use usb_bulk.Kernel.Scheduler.{WaitReason}
use usb_bulk.Kernel.Queue.{Reply, returned, waits}
use usb_bulk.Kernel.Task.{
  Tcb, System, in_task, in_interrupt, switch_context, set_tcb, task_wait_complete,
  task_curr_to_wait_action,
}
use usb_bulk.Kernel.Task.Services.{request_switch}

-- TN_EVENT
pub record Event : Type 0 where
  pub wait_queue : ℕ
  pub attr : ℕ
  pub pattern : ℕ
  pub id_event : ℕ

abbrev pub tn_id_event : ℕ
tn_id_event = 0x5E224F25

-- TN_EVENT_ATTR_SINGLE, TN_EVENT_ATTR_MULTI, TN_EVENT_ATTR_CLR and TN_EVENT_WCOND_OR
abbrev pub attr_single : ℕ
attr_single = 1

abbrev pub attr_multi : ℕ
attr_multi = 2

abbrev pub attr_clr : ℕ
attr_clr = 4

abbrev pub wcond_or : ℕ
wcond_or = 8

unfoldable pub tn_event_create : Option Event → ℕ → ℕ → System → Code × Option Event × System
tn_event_create none attr pattern s = (wrong_param, none, s)
tn_event_create (some e) attr pattern s =
    let s' = record s { wait_list = update s.wait_list e.wait_queue [] } in
    if e.id_event == tn_id_event
      || (not (has_bits attr attr_single) && not (has_bits attr attr_multi))
    then (wrong_param, some e, s)
    else if has_bits attr attr_clr && not (has_bits attr attr_single)
    then (wrong_param, some (record e { attr = 0xFFFFFFFF; pattern = pattern }), s')
    else (no_err, some (record e { attr = attr; pattern = pattern; id_event = tn_id_event }), s')

-- The release condition: any bit of the pattern that is waited for, or all of them.
abbrev pub is_met : ℕ → ℕ → ℕ → Bool
is_met pattern mode waited =
    if has_bits mode wcond_or then has_bits pattern waited else bit_and pattern waited == waited

-- `if(evf->attr & TN_EVENT_ATTR_CLR) evf->pattern = 0`
abbrev pub cleared : Event → Event
cleared e = if has_bits e.attr attr_clr then record e { pattern = 0 } else e

-- The tests before a wait, where `may_call` is that of the context; what they come to where they fail.
abbrev pub refusal : (System → Bool) → ℕ → Bool → Event → System → Option Code
refusal may_call wait_pattern has_place e s =
    if wait_pattern == 0 || not has_place
    then some wrong_param
    else if e.id_event == tn_id_event
    then if may_call s
      then if has_bits e.attr attr_single && not (is_empty (s.wait_list e.wait_queue))
        then some iluse
        else none
      else some wcontext
    else some noexs

-- A polling wait: the option is what goes to `*p_flags_pattern`.
unfoldable pub wait_polling :
    (System → Bool) → Option Event → ℕ → ℕ → Bool → System → Code × Option ℕ × Option Event
wait_polling may_call none wait_pattern mode has_place s = (wrong_param, none, none)
wait_polling may_call (some e) wait_pattern mode has_place s =
    elim (refusal may_call wait_pattern has_place e s) [
      | some rc ↦ (rc, none, some e)
      | none ↦
          if is_met e.pattern mode wait_pattern
          then (no_err, some e.pattern, some (cleared e))
          else (Code.timeout, none, some e)
    ]

unfoldable pub tn_event_wait_polling :
    Option Event → ℕ → ℕ → Bool → System → Code × Option ℕ × Option Event
unfolding wait_polling
tn_event_wait_polling = wait_polling in_task

unfoldable pub tn_event_iwait :
    Option Event → ℕ → ℕ → Bool → System → Code × Option ℕ × Option Event
unfolding wait_polling
tn_event_iwait = wait_polling in_interrupt

unfoldable pub tn_event_wait :
    Option Event → ℕ → ℕ → Bool → ℕ → System → Reply (Option ℕ) × Option Event × System
unfolding task_curr_to_wait_action switch_context
tn_event_wait none wait_pattern mode has_place time s = (returned wrong_param none, none, s)
tn_event_wait (some e) wait_pattern mode has_place time s =
    if time == 0
    then (returned wrong_param none, some e, s)
    else elim (refusal in_task wait_pattern has_place e s) [
      | some rc ↦ (returned rc none, some e, s)
      | none ↦
          if is_met e.pattern mode wait_pattern
          then (returned no_err (some e.pattern), some (cleared e), s)
          else (let c = record (s.tcb s.curr_run_task) {
            ewait_mode = mode;
            ewait_pattern = wait_pattern;
          } in
              (
                waits,
                some e,
                switch_context (
                    task_curr_to_wait_action (some e.wait_queue) WaitReason.event time
                      (set_tcb s s.curr_run_task c)),
              ))
    ]

-- What a wait that did not end at once returns, and stores, when its task runs again.
unfoldable pub wait_resumed : System → Code × Option ℕ
wait_resumed s =
    let c = s.tcb s.curr_run_task in
    (c.task_wait_rc, elim c.task_wait_rc [ no_err ↦ some c.ewait_pattern | _ ↦ none ])

-- scan_event_waitqueue, from some entry on: the tasks whose condition is met leave the queue `w` and
-- their wait ends. Whether one of them is to run comes with it.
unfoldable pub scan_event_waitqueue : ℕ → ℕ → List ℕ → System → Bool × System
unfolding task_wait_complete
scan_event_waitqueue w pattern [] s = (false, s)
scan_event_waitqueue w pattern (t ∷ ts) s =
    let c = s.tcb t in
    let met = is_met pattern c.ewait_mode c.ewait_pattern in
    let left = record s {
      tcb = update s.tcb t (record c { ewait_pattern = pattern });
      wait_list = update s.wait_list w (remove t (s.wait_list w));
    } in
    let (switch, s') = task_wait_complete t left in
    let (later, s'') = scan_event_waitqueue w pattern ts (if met then s' else s) in
    ((met && switch) || later, s'')

unfoldable pub set_event : (System → System) → Event → ℕ → System → Event × System
unfolding scan_event_waitqueue
set_event next e pattern s =
    let e' = record e { pattern = bit_or e.pattern pattern } in
    let (switch, s') = scan_event_waitqueue e.wait_queue e'.pattern (s.wait_list e.wait_queue) s in
    if switch then (cleared e', next s') else (e', s')

-- A change of the pattern, under the tests of the context. `ok` is the test of the argument.
abbrev pub on_event :
    (System → Bool)
    → Bool
    → (Event → System → Event × System)
    → Option Event
    → System
    → Code × Option Event × System
on_event may_call ok body none s = (wrong_param, none, s)
on_event may_call ok body (some e) s =
    let (e', s') = body e s in
    if not ok
    then (wrong_param, some e, s)
    else if e.id_event == tn_id_event
    then if may_call s then (no_err, some e', s') else (wcontext, some e, s)
    else (noexs, some e, s)

unfoldable pub tn_event_set : Option Event → ℕ → System → Code × Option Event × System
unfolding set_event switch_context
tn_event_set o pattern s =
    on_event in_task (not (pattern == 0)) (λ e s. set_event switch_context e pattern s) o s

unfoldable pub tn_event_iset : Option Event → ℕ → System → Code × Option Event × System
unfolding set_event
tn_event_iset o pattern s =
    on_event in_interrupt (not (pattern == 0)) (λ e s. set_event request_switch e pattern s) o s

abbrev pub clear_event : ℕ → Event → System → Event × System
clear_event pattern e s = (record e { pattern = bit_and e.pattern pattern }, s)

unfoldable pub tn_event_clear : Option Event → ℕ → System → Code × Option Event × System
tn_event_clear o pattern s =
    on_event in_task (not (pattern == 0xFFFFFFFF)) (clear_event pattern) o s

unfoldable pub tn_event_iclear : Option Event → ℕ → System → Code × Option Event × System
tn_event_iclear o pattern s =
    on_event in_interrupt (not (pattern == 0xFFFFFFFF)) (clear_event pattern) o s
