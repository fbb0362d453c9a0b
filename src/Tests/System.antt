-- ===== src/Tests/System.antt =====
-- The wrappers of system calls, and the parts of common/Util.cpp that ask the system, at concrete
-- answers.
use Prim.Native.String.{String}
use timer_and_callback.Base.{ℕ, ◌<◌, ◌≡◌, ◌≢◌, none, some, List, [], ◌∷◌, ok, aborted}
use timer_and_callback.Message.{timer_task, max_tasks}
use timer_and_callback.Host.{Family, Interface, get_my_ip_address, get_my_ip_address-chosen}
use timer_and_callback.TimerTask.Initialize.{
  TimerTask, runs, waits, minus_1, initialize, HasQueueOf, initialize-cases,
}
use timer_and_callback.Tests.Queues.{one_queue}

abbrev interfaces : List Interface
interfaces =
    record { ifa_name = "lo"; ifa_addr = some (Family.af_inet, "127.0.0.1") }
    ∷ record { ifa_name = "eth0"; ifa_addr = some (Family.af_inet6, "fe80::1") }
    ∷ record { ifa_name = "eth0"; ifa_addr = some (Family.af_inet, "10.0.0.7") }
    ∷ record { ifa_name = "wlan0"; ifa_addr = some (Family.af_inet, "10.0.0.8") }
    ∷ []

has_address : (addr : Family × String) → some addr ≢ none
has_address addr e = cc

get_my_ip_address-chosen_example : get_my_ip_address interfaces ≡ ok "10.0.0.7"
get_my_ip_address-chosen_example = get_my_ip_address-chosen interfaces (
  has_address (Family.af_inet, "127.0.0.1"),
  (
    has_address (Family.af_inet6, "fe80::1"),
    (has_address (Family.af_inet, "10.0.0.7"), (has_address (Family.af_inet, "10.0.0.8"), tt)),
  ),
)

abbrev task : TimerTask
task = record { pid = 77; t_id = 0; p_mq_to_tasks = [] }

-- `fork` answers 0 in the child.
abbrev in_child : ℕ
in_child = 0

initialize-cases_example :
    (in_child ≡ 0
      → (child : TimerTask) × (s' : List (List ℕ)) × (initialize one_queue
            (λ s. (in_child, s))
            task
            []
          ≡ ok (runs child, s'))
        × (child.t_id ≡ timer_task)
        × ((id : ℕ) → id < max_tasks → HasQueueOf child.p_mq_to_tasks id id))
    × (in_child ≡ minus_1 → initialize one_queue (λ s. (in_child, s)) task [] ≡ aborted)
    × (in_child ≢ 0
        → in_child ≢ minus_1
        → initialize one_queue (λ s. (in_child, s)) task []
          ≡ ok (waits (record task { pid = in_child; t_id = timer_task }), []))
initialize-cases_example = initialize-cases one_queue (λ s. (in_child, s)) task []
