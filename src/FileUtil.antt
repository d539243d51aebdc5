-- ===== src/FileUtil.antt =====
-- `pkg/fileutil/copy.go`
use firecracker_agent.Base.{Bytes, Act, ⊤, ◌>>=◌, ◌>>◌, text}
use firecracker_agent.Host.{Host, History, copy, mkdir_all, combined_output, check_os, check_output}
use firecracker_agent.FilePath.{dir}

unfoldable pub copy_file : Host → Bytes → Bytes → Act History ⊤
copy_file host src dst = do
  made ← mkdir_all host (dir dst)
  check_os (text "failed to create parent dir: ") made
  out ← combined_output host (copy src dst)
  check_output (text "cp failed: ") out
