-- ===== src/Fs/Volume/Driver.antt =====
-- The driver of question/device/disk.c as the file system's disk.
use assembly_os.Serial.{Uart}
use assembly_os.Disk.{disk_get_block_num, disk_get_block_len, disk_wr, disk_rd}
use assembly_os.Fs.Volume.{BlockDevice}

abbrev pub driver : {D : Type 0} → Uart D → BlockDevice D
driver u = record {
  get_block_num = disk_get_block_num u;
  get_block_len = disk_get_block_len u;
  write_block = λ a x d. disk_wr u d a x;
  read_block = λ a n d. disk_rd u d a n;
}
