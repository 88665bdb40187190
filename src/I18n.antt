-- ===== src/I18n.antt =====
-- kernel/i18n/i18n.h and kernel/i18n/i18n.cpp: the messages in two languages, and the choice of one.
-- `current_language` is an argument and a result of what reads and writes it.
use Prim.Native.String.{String}
use xbt_os_misaka.Prelude.{Bool, true, false, ◌||◌, Option, none, some, if◌then◌else◌}
use xbt_os_misaka.Console.{bytes}
use xbt_os_misaka.KString.{Bytes, streq}

pub data Language : Type 0 where
  en zh_cn : Language

pub data MessageId : Type 0 where
  welcome msg_prompt help_header help_core help_files help_lang unknown_command file_created
        file_deleted file_not_found file_write_ok usage_touch usage_read usage_write language_en
        language_zh about sysinfo_header current_path :
      MessageId

abbrev pub english_messages : MessageId → String
english_messages welcome = "Welcome to XBTOS-LC Alpha\nType 'help' for available commands.\n"
english_messages msg_prompt = "XBTOS-LC> "
english_messages help_header = "Available commands:\n"
english_messages help_core = " help clear about sysmit dirs lang\n"
english_messages help_files = " lst touch rdf rec append rm stat\n"
english_messages help_lang = " lang en | lang zh\n"
english_messages unknown_command = "Unknown command: "
english_messages file_created = "File created.\n"
english_messages file_deleted = "File deleted.\n"
english_messages file_not_found = "File not found.\n"
english_messages file_write_ok = "File written.\n"
english_messages usage_touch = "Usage: touch <filename>\n"
english_messages usage_read = "Usage: rdf <filename>\n"
english_messages usage_write = "Usage: rec <filename> <text>\n"
english_messages language_en = "Language switched to English.\n"
english_messages language_zh = "已切换到中文。\n"
english_messages about = "XBTOS-LC Alpha 1029\nDeveloped by XBT. Technology Studio 2026\n"
english_messages sysinfo_header = "=== System Information ===\n"
english_messages current_path = "Current Path: /\n"

abbrev pub chinese_messages : MessageId → String
chinese_messages welcome = "欢迎使用 XBTOS-LC Alpha\n输入 help 查看命令。\n"
chinese_messages msg_prompt = "XBTOS-LC> "
chinese_messages help_header = "可用命令：\n"
chinese_messages help_core = " help clear about sysmit dirs lang\n"
chinese_messages help_files = " lst touch rdf rec append rm stat\n"
chinese_messages help_lang = " lang en | lang zh\n"
chinese_messages unknown_command = "未知命令："
chinese_messages file_created = "文件已创建。\n"
chinese_messages file_deleted = "文件已删除。\n"
chinese_messages file_not_found = "文件不存在。\n"
chinese_messages file_write_ok = "文件已写入。\n"
chinese_messages usage_touch = "用法：touch <文件名>\n"
chinese_messages usage_read = "用法：rdf <文件名>\n"
chinese_messages usage_write = "用法：rec <文件名> <文本>\n"
chinese_messages language_en = "Language switched to English.\n"
chinese_messages language_zh = "已切换到中文。\n"
chinese_messages about = "XBTOS-LC Alpha 1029\n由 XBT. Technology Studio 开发，2026\n"
chinese_messages sysinfo_header = "=== 系统信息 ===\n"
chinese_messages current_path = "当前路径：/\n"

-- `text`
unfoldable pub message : Language → MessageId → Bytes
message zh_cn id = bytes (chinese_messages id)
message en id = bytes (english_messages id)

-- The language after `set_language_by_name`, and what it returns. The name is `none` for a null
-- pointer.
unfoldable pub set_language_by_name : Option Bytes → Language → Bool × Language
set_language_by_name none current = (false, current)
set_language_by_name (some name) current =
    if streq name (bytes "zh") || streq name (bytes "cn") || streq name (bytes "zh-cn")
    then (true, zh_cn)
    else if streq name (bytes "en") || streq name (bytes "us")
    then (true, en)
    else (false, current)
