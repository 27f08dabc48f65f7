-- ===== src/Packet/Tests.antt =====
-- A packet of sixteen bytes with headers of four.
use rex_with_driver.Base.{◌≡◌, arith, false, some, replicate}
use rex_with_driver.Kernel.{Bytes}
use rex_with_driver.Packet.{Layout, bytes_at, ip_header, update_header}
use rex_with_driver.Example.{linux_layout}
use rex_with_driver.Packet.Views.{Framed, ip_header-Framed}

abbrev layout : Layout
layout = record linux_layout { ethhdr = 4; iphdr = 4; udphdr = 4; tcphdr = 4 }

abbrev packet : Bytes
packet = replicate 16 5

abbrev zeros : Bytes → Bytes
zeros _ = replicate 4 0

ip_header-Framed_example :
    (out : Bytes) × (update_header (ip_header layout (λ _. false) packet) zeros packet ≡ some out)
    × Framed packet 4 8 (zeros (bytes_at packet 4 4)) out
ip_header-Framed_example =
    ip_header-Framed layout (λ _. false) packet zeros (omega arith) (omega arith)
