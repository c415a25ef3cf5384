-- ===== src/Fs/Descriptors.antt =====
-- question/kernel/fs.c and file_system_calls.c: the table of open files.
-- The counts lie between 0 and 10, so a signed comparison with one is that of the numbers.
pub mod Laws
pub mod Closing
pub mod Once
use assembly_os.Prelude.{
  ℕ, ◌+◌, ◌-◌, Bool, not, ◌&&◌, ◌||◌, Option, none, some, List, ◌==◌, if◌then◌else◌, leb, minus_one,
  get_or, set, memmove, index_where,
}
use assembly_os.Process.State.{Kernel, running, max_open_files}
use assembly_os.Process.Files.{remove_process_fd, proc_fd_open}
use assembly_os.Fs.State.{
  FileDescriptor, FileDescriptorTable, read, write, read_write, read_global, write_global,
}

-- It stands for what lies past the end of the array; no loop reads it.
abbrev pub no_descriptor : FileDescriptor
no_descriptor = record { id = 0; flags = 0; inode_id = 0 }

abbrev pub descriptor : FileDescriptorTable → ℕ → FileDescriptor
descriptor t i = get_or t.opened i no_descriptor

-- The index of the descriptor that the returned pointer points to, `none` for NULL.
unfoldable pub fdid_to_fd : FileDescriptorTable → ℕ → Option ℕ
fdid_to_fd t file_descriptor_id =
    index_where (λ (d : FileDescriptor). d.id == file_descriptor_id) t.count t.opened

abbrev pub is_global : FileDescriptor → Bool
is_global d = d.flags == read_global || d.flags == write_global

-- The end of `add_fd`, given what its loop found: a new descriptor, or the one that is open.
pub add_new : FileDescriptorTable → ℕ → ℕ → Option ℕ → FileDescriptorTable × ℕ
add_new t inode_id flags (some i) =
    if is_global (descriptor t i) then (t, (descriptor t i).id) else (t, minus_one)
add_new t inode_id flags none = (
  record {
    count = t.count + 1;
    opened = set t.opened t.count (record { id = t.count; flags = flags; inode_id = inode_id });
  },
  t.count,
)

unfoldable pub add_fd : FileDescriptorTable → ℕ → ℕ → FileDescriptorTable × ℕ
unfolding add_new
add_fd t inode_id flags =
    if leb max_open_files t.count
    then (t, minus_one)
    else add_new t inode_id flags
        (index_where (λ (d : FileDescriptor). d.inode_id == inode_id) t.count t.opened)

-- The end of `close_file`, given what its loop found.
close_found : FileDescriptorTable → Option ℕ → FileDescriptorTable × ℕ
close_found t none = (t, minus_one)
close_found t (some index) = if is_global (descriptor t index) then (t, 0) else (
  record { count = t.count - 1; opened = memmove t.opened index (index + 1) (t.count - 1 - index) },
  0,
)

unfoldable pub close_file : FileDescriptorTable → ℕ → FileDescriptorTable × ℕ
unfolding close_found
close_file t file_descriptor_id = close_found t (fdid_to_fd t file_descriptor_id)

-- `sys_close`, with the current process's table of descriptors.
unfoldable pub sys_close : Kernel → FileDescriptorTable → ℕ → Kernel × FileDescriptorTable × ℕ
sys_close k t fd =
    let (t', status) = close_file t fd in
    if status == minus_one
    then (k, t', minus_one)
    else (let (k', r) = remove_process_fd k (running k).pid fd in (k', t', r))

-- The end of `process_has_file_permission`, given the descriptor.
permission : Kernel → ℕ → ℕ → ℕ → FileDescriptor → ℕ
permission k pid fdid mode d =
    if (mode == read && d.flags == read_global) || (mode == write && d.flags == write_global)
    then 1
    else (if not (d.flags == read_write) && not (d.flags == mode)
        then minus_one
        else proc_fd_open k pid fdid)

permission_at : Kernel → FileDescriptorTable → ℕ → ℕ → ℕ → Option ℕ → ℕ
unfolding permission
permission_at k t pid fdid mode none = minus_one
permission_at k t pid fdid mode (some i) = permission k pid fdid mode (descriptor t i)

unfoldable pub process_has_file_permission : Kernel → FileDescriptorTable → ℕ → ℕ → ℕ → ℕ
unfolding permission_at
process_has_file_permission k t pid fdid mode = permission_at k t pid fdid mode (fdid_to_fd t fdid)
