-- ===== src/Printk/Tests.antt =====
-- A message printed by the example kernel.
use rex_with_driver.Base.{arith, List, [], ◌∷◌, codes}
use rex_with_driver.Kernel.{Bytes}
use rex_with_driver.Printk.{rex_trace_printk}
use rex_with_driver.Printk.Printed.{Printed, rex_trace_printk-Printed}
use rex_with_driver.Example.{quiet, idle}

abbrev greeting : List Bytes
greeting = codes "hello " ∷ codes "kernel" ∷ []

rex_trace_printk-Printed_example :
    Printed quiet greeting idle (rex_trace_printk quiet greeting idle)
rex_trace_printk-Printed_example = rex_trace_printk-Printed quiet greeting idle (omega arith)
