-- ===== src/Cli/Exit.antt =====
-- `main` of src/onceproof/cli.py: what a command's result becomes.
use onceproof.Base.{ℕ, String, ◌==◌, if◌then◌else◌}
use onceproof.Errors.{
  Error, Result, ok, err, key_error, value_error, permission_error, store_corrupt, restore_required,
  commit_uncertain, os_error, file_exists,
}
use onceproof.Model.Json.{Value, text, obj, end, field}

-- The exit status with the line that is printed, or an exception that `main` lets pass.
pub data Exit : Type 0 where
  exits : ℕ → Value → Exit
  uncaught : Error → Exit

abbrev failure : String → Exit
failure code = Exit.exits 2 (obj (field "error" (text code) end))

-- str(error) or error.__class__.__name__.lower()
abbrev or_class : String → String → String
or_class message class_name = if message == "" then class_name else message

-- `main`, for the result of the handler; an OSError has a message of its own.
unfoldable pub exit_of : String → Result Value → Exit
exit_of os_message (ok result) = Exit.exits 0 result
exit_of os_message (err file_exists) = failure "instance_exists"
exit_of os_message (err (key_error id)) =
    Exit.exits 2 (obj (field "error" (text "not_found") (field "id" (text id) end)))
exit_of os_message (err commit_uncertain) = failure "keyring_commit_uncertain"
exit_of os_message (err os_error) = failure (or_class os_message "oserror")
exit_of os_message (err (permission_error code)) = failure (or_class code "permissionerror")
exit_of os_message (err restore_required) = failure "restore_activation_required"
exit_of os_message (err store_corrupt) = failure "store_corrupt"
exit_of os_message (err (value_error code)) = failure (or_class code "valueerror")
exit_of os_message (err e) = Exit.uncaught e
