-- ===== src/InetAddress/Tests.antt =====
-- Runs of net/inetaddress/inetaddress.cc, and its theorems at concrete inputs.
use moony.Prelude.{◌≤◌, ◌≡◌, refl, ok, length}
use moony.Prelude.Text.{codes, decimal}
use moony.InetAddress.{create, create_default, to_ip, to_ip_port}
use moony.InetAddress.Local.{local_inet, swap_bytes, dotted}
use moony.InetAddress.Print.{ip_port_text, to_ip_port_lem}

to_ip_port_run : to_ip_port local_inet (create_default local_inet) ≡ ok (codes "127.0.0.1:9080")
unfolding to_ip_port create_default create swap_bytes dotted decimal
to_ip_port_run = refl

to_ip_port_lem_example :
    (to_ip local_inet (create local_inet 8000 (codes "127.0.0.1")) ≡ ok (dotted 16777343))
    × (to_ip_port local_inet (create local_inet 8000 (codes "127.0.0.1"))
        ≡ ok (ip_port_text local_inet (create local_inet 8000 (codes "127.0.0.1"))))
    × (length (ip_port_text local_inet (create local_inet 8000 (codes "127.0.0.1"))) ≤ 21)
unfolding create
to_ip_port_lem_example = to_ip_port_lem local_inet (create local_inet 8000 (codes "127.0.0.1"))
