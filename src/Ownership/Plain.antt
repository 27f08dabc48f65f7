-- ===== src/Ownership/Plain.antt =====
-- Which kernel calls the `helper` step of a program may make: all but the four of
-- rex/src/spinlock.rs and rex/src/task_struct.rs.
use rex_with_driver.Base.{◌≡◌, refl, false}
use rex_with_driver.Kernel.{Call}
use rex_with_driver.Ownership.{obtains, gives_back}
use rex_with_driver.Ownership.Program.{Plain, on_resource}

-- Every other call neither obtains nor gives back a resource.
pub on_resource-Plain : (c : Call) → on_resource c ≡ false → Plain c
unfolding obtains gives_back
on_resource-Plain (Call.map_lookup_elem _ _) e = record {
  obtains_none = λ f a k cs. refl;
  gives_none = λ f a. refl;
}
on_resource-Plain (Call.map_update_elem _ _ _ _) e = record {
  obtains_none = λ f a k cs. refl;
  gives_none = λ f a. refl;
}
on_resource-Plain (Call.map_delete_elem _ _) e = record {
  obtains_none = λ f a k cs. refl;
  gives_none = λ f a. refl;
}
on_resource-Plain (Call.map_push_elem _ _ _) e = record {
  obtains_none = λ f a k cs. refl;
  gives_none = λ f a. refl;
}
on_resource-Plain (Call.map_pop_elem _) e = record {
  obtains_none = λ f a k cs. refl;
  gives_none = λ f a. refl;
}
on_resource-Plain (Call.map_peek_elem _) e = record {
  obtains_none = λ f a k cs. refl;
  gives_none = λ f a. refl;
}
on_resource-Plain (Call.probe_read_kernel _ _) e = record {
  obtains_none = λ f a k cs. refl;
  gives_none = λ f a. refl;
}
on_resource-Plain Call.ktime_get_ns e = record {
  obtains_none = λ f a k cs. refl;
  gives_none = λ f a. refl;
}
on_resource-Plain Call.ktime_get_boot_ns e = record {
  obtains_none = λ f a k cs. refl;
  gives_none = λ f a. refl;
}
on_resource-Plain Call.ktime_get_coarse_ns e = record {
  obtains_none = λ f a k cs. refl;
  gives_none = λ f a. refl;
}
on_resource-Plain Call.get_random_u32 e = record {
  obtains_none = λ f a k cs. refl;
  gives_none = λ f a. refl;
}
on_resource-Plain (Call.call_snprintf _ _ _) e = record {
  obtains_none = λ f a k cs. refl;
  gives_none = λ f a. refl;
}
on_resource-Plain Call.call_landingpad e = record {
  obtains_none = λ f a k cs. refl;
  gives_none = λ f a. refl;
}
on_resource-Plain (Call.get_stackid_pe _ _ _) e = record {
  obtains_none = λ f a k cs. refl;
  gives_none = λ f a. refl;
}
on_resource-Plain (Call.perf_prog_read_value _ _) e = record {
  obtains_none = λ f a k cs. refl;
  gives_none = λ f a. refl;
}
on_resource-Plain (Call.perf_event_output_tp _ _ _ _) e = record {
  obtains_none = λ f a k cs. refl;
  gives_none = λ f a. refl;
}
on_resource-Plain (Call.xdp_adjust_tail _ _) e = record {
  obtains_none = λ f a k cs. refl;
  gives_none = λ f a. refl;
}
on_resource-Plain (Call.clone_redirect _ _ _) e = record {
  obtains_none = λ f a k cs. refl;
  gives_none = λ f a. refl;
}
on_resource-Plain (Call.ringbuf_reserve _ _ _) e = record {
  obtains_none = λ f a k cs. refl;
  gives_none = λ f a. refl;
}
on_resource-Plain (Call.ringbuf_output _ _ _) e = record {
  obtains_none = λ f a k cs. refl;
  gives_none = λ f a. refl;
}
on_resource-Plain (Call.ringbuf_submit _ _ _) e = record {
  obtains_none = λ f a k cs. refl;
  gives_none = λ f a. refl;
}
on_resource-Plain (Call.ringbuf_discard _ _) e = record {
  obtains_none = λ f a k cs. refl;
  gives_none = λ f a. refl;
}
on_resource-Plain (Call.ringbuf_query _ _) e = record {
  obtains_none = λ f a k cs. refl;
  gives_none = λ f a. refl;
}
on_resource-Plain Call.trace_printk e = record {
  obtains_none = λ f a k cs. refl;
  gives_none = λ f a. refl;
}
on_resource-Plain (Call.spin_lock _) e = absurd (cc)
on_resource-Plain (Call.spin_unlock _) e = absurd (cc)
on_resource-Plain (Call.task_from_pid _) e = absurd (cc)
on_resource-Plain (Call.task_release _) e = absurd (cc)
