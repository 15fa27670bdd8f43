-- ===== src/Tests/Inputs.antt =====
-- Inputs that the tests share.
use usb_bulk.Prelude.{
  ◌==◌, if◌then◌else◌, ℕ, ◌+◌, ◌-◌, refl, ap, true, false, [], ◌∷◌, arith, get_or,
}
use usb_bulk.Bus.Regs.{dev_int_st, ccemty}
use usb_bulk.Bus.Access.{Answers, bus}
use usb_bulk.Bus.Ready.{Ready}
use usb_bulk.Hw.Memory.{Mem}
use usb_bulk.Hw.Answered.{Acked}
use usb_bulk.Descriptors.{ab_descriptors}
use usb_bulk.Descriptors.Layout.{Loaded}
use usb_bulk.Control.State.{Device, SetupPacket}
use usb_bulk.Kernel.Code.{no_err}
use usb_bulk.Kernel.Scheduler.{Scheduler}
use usb_bulk.Kernel.Queue.{complete}
use usb_bulk.Kernel.Queue.Order.{Keeps}
use usb_bulk.Kernel.Queue.Handed.{Stores}

-- The controller raises CCEMTY at the first read, and goes on with `j`.
abbrev pub acked : Answers → Answers
acked j = (dev_int_st, ccemty) ∷ j

pub acked-Acked : (j : Answers) → Acked (acked j) j
acked-Acked j = (ccemty, Ready.now refl)

-- The descriptors stand from 256 on, and every byte before them is a 18, every one behind is 0.
abbrev pub loaded : Mem
loaded a = get_or ab_descriptors (a - 256) 0

pub loaded-Loaded : Loaded loaded 256
loaded-Loaded i h = ap (λ j. get_or ab_descriptors j 0) {x = 256 + i - 256} {y = i} (omega arith)

abbrev pub packet : ℕ → ℕ → ℕ → ℕ → SetupPacket
packet ty r value len = record {
  bm_request_type = ty;
  b_request = r;
  w_value = value;
  w_index = 0;
  w_length = len;
}

-- A device with the setup packet `s`, which has `n` bytes to send from 512 on.
abbrev pub device : SetupPacket → ℕ → Answers → Device
device s n i = record {
  bus = bus i [];
  mem = loaded;
  ep0 = record { nbytes = n; pdata = 512; pbuf = 512 };
  setup = s;
  descriptors = 256;
  configuration = 0;
}

-- Tasks that are always woken without a switch; the state is each one's element.
abbrev pub tasks : Scheduler (ℕ → ℕ)
tasks = record {
  in_interrupt = λ s. true;
  in_task = λ s. false;
  curr_run_task = λ s. 1;
  data_elem = λ t s. s t;
  set_data_elem = λ t x s u. if u == t then x else s u;
  task_wait_rc = λ t s. no_err;
  set_task_wait_rc = λ t rc s. s;
  task_wait_complete = λ t s. (false, s);
  curr_to_wait = λ r time s. s;
  request_switch = λ s. s;
}

pub tasks-Keeps : Keeps tasks
unfolding complete
tasks-Keeps t u s = refl

pub tasks-Stores : Stores tasks
tasks-Stores t x s = ground arith

-- Each task's element is its own number.
abbrev pub own_number : ℕ → ℕ
own_number t = t
