-- ===== src/Tests/Disk.antt =====
-- The theorems on the disk's driver at a port that queues what it is given.
use assembly_os.Prelude.{ℕ, ◌≡◌, arith, some, List, [], ◌∷◌, ◌++◌}
use assembly_os.Tests.Ram.{port, push, takes, gives}
use assembly_os.Disk.{disk_wr, disk_rd, disk_success, disk_failure}
use assembly_os.Disk.Laws.{
  wr_request, rd_request, ack_okay, ack_fail, ack_data, Refused, disk_wr-acknowledged,
  disk_rd-answered, disk_wr-Refused,
}

abbrev block : List ℕ
block = 171 ∷ 7 ∷ []

abbrev written : List ℕ → List ℕ
written = push (wr_request 5 block)

disk_wr-acknowledged_example :
    disk_wr port ([], ack_okay) 5 block ≡ some (disk_success, (written [], []))
disk_wr-acknowledged_example =
    disk_wr-acknowledged port 5 block ([], ack_okay) (written [], ack_okay) (written [], [])
      (takes (wr_request 5 block) [] ack_okay) (gives ack_okay (written []) [])

disk_rd-answered_example :
    disk_rd port ([], ack_data block) 5 2 ≡ some (disk_success, block, (push (rd_request 5) [], []))
disk_rd-answered_example =
    disk_rd-answered port 5 block ([], ack_data block) (push (rd_request 5) [], ack_data block)
      (push (rd_request 5) [], []) (omega arith, (omega arith, tt))
      (takes (rd_request 5) [] (ack_data block))
      (gives (ack_data block) (push (rd_request 5) []) [])

refusal :
    (sent incoming : List ℕ)
    → Refused port 5 block (sent, ack_fail ++ incoming) (written sent, incoming)
refusal sent incoming = record {
  asked = (written sent, ack_fail ++ incoming);
  taken = takes (wr_request 5 block) sent (ack_fail ++ incoming);
  answer = gives ack_fail (written sent) incoming;
}

disk_wr-Refused_example :
    disk_wr port ([], ack_fail ++ (ack_fail ++ ack_fail)) 5 block
    ≡ some (disk_failure, (written (written (written [])), []))
disk_wr-Refused_example =
    disk_wr-Refused port 5 block ([], ack_fail ++ (ack_fail ++ ack_fail))
      (written [], ack_fail ++ ack_fail) (written (written []), ack_fail)
      (written (written (written [])), []) (refusal [] (ack_fail ++ ack_fail))
      (refusal (written []) ack_fail) (refusal (written (written [])) [])
